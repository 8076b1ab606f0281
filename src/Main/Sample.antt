-- ===== src/Main/Sample.antt =====
-- A run of the two threads to the end, where `select` fails in the first round.
use firmware_x.Prelude.{◌≡◌, refl, [], ◌∷◌, Bool, true, false}
use firmware_x.Prelude.Int.{negsuc}
use firmware_x.System.{History, Exit, next, Env, Reply, select}
use firmware_x.System.Sample.{sample_env}
use firmware_x.Functionfs.{aio_set_timeout, wait_read_management_ready}
use firmware_x.Functionfs.Mount.{
  ffs_init, ffs_open, mount_ffs, write_ctrl, open_pipes, ffs_mark, ffs_cleanup, close_pipe,
  close_ctrl,
}
use firmware_x.Functionfs.Aio.{aio_init, aio_cleanup}
use firmware_x.Functionfs.Lifecycle
use firmware_x.Configfs
use firmware_x.Configfs.{create_gadget, create_parts, find_udc}
use firmware_x.Bootloader.{Bootloader, init, cleanup}
use firmware_x.Bootloader.Service.{Locals, Round, leave, round}
use firmware_x.Bootloader.Sample.{new_bootloader, sample_generated, new_locals}
use firmware_x.Main.{
  Program, Main, wait_stop, wait_running, counting, done, Service, serving, returned, started,
  Steps, here, later, by_service, by_main, test_start, test_outer, test_inner, initialise, mark,
  serve, clean, break_inner, unmark, await_running, test_counting, stop, await_stop, cleaning,
}
use firmware_x.Main.Bounds.{told}

-- An outside where `select` fails, and all else is well.
abbrev pub no_select : History → Reply
no_select (select n fds t ∷ h) = record (sample_env.answer []) { ret = negsuc 0 }
no_select h = sample_env.answer h

abbrev pub select_env : Env
select_env = record sample_env { answer = no_select }

abbrev pub run : Exit Bool × Bootloader × History
run = init select_env new_bootloader []

pub run_true : init select_env new_bootloader [] ≡ (next true, run.1, run.2)
unfolding init aio_set_timeout Configfs.init create_gadget create_parts find_udc Lifecycle.init
    ffs_init ffs_open mount_ffs write_ctrl open_pipes ffs_mark aio_init Configfs.enable
run_true = refl

-- The program while the service is in its loop.
abbrev pub at : Main → Service → Program
at m service = record (started run.1 new_locals) {
  run_status = true;
  main = m;
  service = service;
  calls = run.2;
}

pub to_serving :
    Steps select_env sample_generated (started new_bootloader new_locals) (at wait_running serving)
to_serving =
    let a = later here (by_service (test_start refl)) in
    let b = later a (by_service (test_outer refl)) in
    let c = later b (by_service (initialise true run.1 run.2 refl run_true)) in
    let d = later c (by_service (test_inner refl)) in later d (by_service (mark refl))

pub to_counting :
    Steps select_env sample_generated (started new_bootloader new_locals) (at (counting 0) serving)
to_counting = later to_serving (by_main (await_running refl))

-- The wait fails, so that the service leaves its loop and cleans up.
abbrev pub left : Exit (Round × Locals) × Bootloader × History
left = round select_env sample_generated new_locals run.1 run.2

pub left_is :
    round select_env sample_generated new_locals run.1 run.2
    ≡ (next (leave, new_locals), left.1, left.2)
unfolding init aio_set_timeout Configfs.init create_gadget create_parts find_udc Lifecycle.init
    ffs_init ffs_open mount_ffs write_ctrl open_pipes ffs_mark aio_init Configfs.enable round
    wait_read_management_ready
left_is = refl

abbrev pub cleaned : Exit Bool × Bootloader × History
cleaned = cleanup select_env left.1 left.2

pub cleaned_is : cleanup select_env left.1 left.2 ≡ (next true, cleaned.1, cleaned.2)
unfolding init aio_set_timeout Configfs.init create_gadget create_parts find_udc Lifecycle.init
    ffs_init ffs_open mount_ffs write_ctrl open_pipes ffs_mark aio_init Configfs.enable round
    wait_read_management_ready cleanup Configfs.disable Lifecycle.cleanup ffs_cleanup close_pipe
    close_ctrl aio_cleanup Configfs.cleanup
cleaned_is = refl

-- The service at its `cleanup()`, and at its end.
abbrev pub at_cleanup : Program
at_cleanup = record (told (counting 0) new_locals cleaning true left.1 left.2) { run_status = true }

pub to_cleanup : Steps select_env sample_generated (started new_bootloader new_locals) at_cleanup
to_cleanup =
    let a = later to_counting (by_service (serve leave new_locals left.1 left.2 refl left_is)) in
    later a (by_service (break_inner refl))

abbrev pub ended : Program
ended = record (told done new_locals returned false cleaned.1 cleaned.2) { run_status = false }

-- Before the last look of main at the mark.
abbrev pub stopped : Program
stopped = record (told wait_stop new_locals returned false cleaned.1 cleaned.2) {
  run_status = false;
}

pub to_stopped : Steps select_env sample_generated (started new_bootloader new_locals) stopped
to_stopped =
    let c = later to_cleanup (by_service (clean true cleaned.1 cleaned.2 refl cleaned_is)) in
    let d = later c (by_service (test_outer refl)) in
    let e = later d (by_service (unmark refl)) in
    let f = later e (by_main (test_counting 0 refl)) in later f (by_main (stop refl))

pub to_end : Steps select_env sample_generated (started new_bootloader new_locals) ended
to_end = later to_stopped (by_main (await_stop refl))
