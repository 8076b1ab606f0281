-- ===== src/Main/Examples.antt =====
-- Runs of the two threads: to the end, and where they hang.
use firmware_x.Prelude.{◌≡◌, ◌≢◌, refl, [], ◌∷◌, Bool, true, false, if◌then◌else◌}
use firmware_x.Prelude.Int.{pos, negsuc, eq_ℤ}
use firmware_x.System.{History, Exit, next, Env, Reply, read, usbg_init}
use firmware_x.System.Sample.{sample_env}
use firmware_x.Functionfs.{
  aio_set_timeout, process_control_event, wait_read_management_ready, is_read_ctrl_ready,
  is_read_eventfd_ready, read_ctrl, read_eventfd,
}
use firmware_x.Functionfs.Mount.{ffs_init, ffs_open, mount_ffs, write_ctrl, open_pipes, ffs_mark}
use firmware_x.Functionfs.Aio.{aio_init}
use firmware_x.Functionfs.Lifecycle
use firmware_x.Configfs
use firmware_x.Configfs.{create_gadget, create_parts, find_udc}
use firmware_x.Bootloader.{Bootloader, init}
use firmware_x.Bootloader.Service.{Locals, Round, quit, round}
use firmware_x.Bootloader.Sample.{new_bootloader, sample_generated, new_locals}
use firmware_x.Main.{
  Program, wait_running, done, returning, returned, started, Steps, here, later, by_service,
  by_main, test_start, test_outer, test_inner, initialise, mark, serve, break_outer, return_early,
  unmark, await_running,
}
use firmware_x.Main.Stuck.{failed_init_hangs}
use firmware_x.Main.EarlyReturn.{early_return_hangs}
use firmware_x.Main.Bounds.{told}

-- An outside where libusbgx cannot start.
abbrev no_usbg : History → Reply
no_usbg (usbg_init ∷ h) = record (sample_env.answer []) { ret = negsuc 0 }
no_usbg h = sample_env.answer h

abbrev usbg_env : Env
usbg_env = record sample_env { answer = no_usbg }

abbrev failed : Exit Bool × Bootloader × History
failed = init usbg_env new_bootloader []

failed_is : init usbg_env new_bootloader [] ≡ (next false, failed.1, failed.2)
unfolding init Configfs.init create_gadget
failed_is = refl

abbrev hung : Program
hung = record (told wait_running new_locals returned false failed.1 failed.2) { run_status = false }

to_hung : Steps usbg_env sample_generated (started new_bootloader new_locals) hung
to_hung =
    let a = later here (by_service (test_start refl)) in
    let b = later a (by_service (test_outer refl)) in
    let c = later b (by_service (initialise false failed.1 failed.2 refl failed_is)) in
    let d = later c (by_service (break_outer refl)) in
    let e = later d (by_service (unmark refl)) in later e (by_main (await_running refl))

failed_init_hangs_example : hung.main ≡ wait_running
failed_init_hangs_example =
    failed_init_hangs usbg_env sample_generated new_bootloader failed.1 failed.2 failed_is
      new_locals hung to_hung

-- An outside where the eventfd, which has the descriptor 3, cannot be read.
abbrev no_eventfd : History → Reply
no_eventfd (read fd n ∷ h) =
    if eq_ℤ fd (pos 3)
    then record (sample_env.answer []) { ret = negsuc 0 }
    else sample_env.answer []
no_eventfd h = sample_env.answer h

abbrev event_env : Env
event_env = record sample_env { answer = no_eventfd }

abbrev up : Exit Bool × Bootloader × History
up = init event_env new_bootloader []

up_is : init event_env new_bootloader [] ≡ (next true, up.1, up.2)
unfolding init aio_set_timeout Configfs.init create_gadget create_parts find_udc Lifecycle.init
    ffs_init ffs_open mount_ffs write_ctrl open_pipes ffs_mark aio_init Configfs.enable
up_is = refl

abbrev quits : Exit (Round × Locals) × Bootloader × History
quits = round event_env sample_generated new_locals up.1 up.2

abbrev locals_then : Locals
locals_then = new_locals

quits_is :
    round event_env sample_generated new_locals up.1 up.2
    ≡ (next (quit, locals_then), quits.1, quits.2)
unfolding init aio_set_timeout Configfs.init create_gadget create_parts find_udc Lifecycle.init
    ffs_init ffs_open mount_ffs write_ctrl open_pipes ffs_mark aio_init Configfs.enable round
    wait_read_management_ready is_read_ctrl_ready is_read_eventfd_ready read_ctrl read_eventfd
    process_control_event
quits_is = refl

abbrev at_return : Program
at_return = record (started quits.1 locals_then) {
  run_status = true;
  service = returning;
  calls = quits.2;
}

to_return : Steps event_env sample_generated (started new_bootloader new_locals) at_return
to_return =
    let a = later here (by_service (test_start refl)) in
    let b = later a (by_service (test_outer refl)) in
    let c = later b (by_service (initialise true up.1 up.2 refl up_is)) in
    let d = later c (by_service (test_inner refl)) in
    let e = later d (by_service (mark refl)) in
    later e (by_service (serve quit locals_then quits.1 quits.2 refl quits_is))

abbrev gone : Program
gone = record at_return { run_control = false; service = returned }

early_return_hangs_example : (gone.run_status ≡ true) × (gone.main ≢ done)
early_return_hangs_example =
    early_return_hangs event_env sample_generated new_bootloader new_locals at_return gone to_return
      refl (later here (by_service (return_early refl)))
