-- ===== src/Main/Busy.antt =====
-- The program on a run in which a transfer from the host is waited for, and fails.
use firmware_x.Prelude.{length, ◌≡◌, refl, [], some, Bool, true, false, arith}
use firmware_x.Prelude.Int.{pos, negsuc, to_int32}
use firmware_x.System.{History, Exit, next, return_false, thrown, undefined, Env}
use firmware_x.System.Sample.{sample_env}
use firmware_x.System.Traffic.{transfers}
use firmware_x.Functionfs.Traffic.{pipes_of, AllOwn}
use firmware_x.Functionfs.{
  aio_set_timeout, wait_read_management_ready, is_read_ctrl_ready, is_read_eventfd_ready, read_ctrl,
  read_eventfd, process_control_event,
}
use firmware_x.Functionfs.Mount.{ffs_init, ffs_open, mount_ffs, write_ctrl, open_pipes, ffs_mark}
use firmware_x.Functionfs.Aio.{
  aio_init, read_host, read_host_body, submit_and_wait, check_read, resize, overwrite,
}
use firmware_x.Functionfs.Lifecycle
use firmware_x.Configfs
use firmware_x.Configfs.{create_gadget, create_parts, find_udc}
use firmware_x.Bootloader.{Bootloader, init}
use firmware_x.Bootloader.Sample.{new_bootloader, sample_generated, new_locals}
use firmware_x.Bootloader.Service.{
  Locals, Round, again, leave, quit, round, after_wait, pull_control, process_control, check_event,
  pull_event, pull_host, answer_host,
}
use firmware_x.Main.{
  Program, wait_running, inner_test, started, Steps, here, later, by_service, test_start,
  test_outer, test_inner, initialise, mark, serve,
}
use firmware_x.Main.Traffic.{loop-AllOwn}

-- An outside where every call succeeds, but the event of a transfer has an error.
abbrev busy_env : Env
busy_env = record sample_env { answer = λ h. record (sample_env.answer h) { res = negsuc 4 } }

abbrev up : Exit Bool × Bootloader × History
up = init busy_env new_bootloader []

up_is : init busy_env new_bootloader [] ≡ (next true, up.1, up.2)
unfolding init aio_set_timeout Configfs.init create_gadget create_parts find_udc Lifecycle.init
    ffs_init ffs_open mount_ffs write_ctrl open_pipes ffs_mark aio_init Configfs.enable
up_is = refl

abbrev served : Exit (Round × Locals) × Bootloader × History
served = round busy_env sample_generated new_locals up.1 up.2

abbrev locals_of : Exit (Round × Locals) → Locals
locals_of (next (r, l)) = l
locals_of _ = new_locals

abbrev is_again : Exit (Round × Locals) → Bool
is_again (next (again, l)) = true
is_again _ = false

as_again :
    (r : Exit (Round × Locals) × Bootloader × History)
    → is_again r.0 ≡ true
    → r ≡ (next (again, locals_of r.0), r.1, r.2)
as_again (next (again, l), b, h) e = refl
as_again (next (leave, l), b, h) e = absurd (ground arith)
as_again (next (quit, l), b, h) e = absurd (ground arith)
as_again (return_false, b, h) e = absurd (ground arith)
as_again (thrown, b, h) e = absurd (ground arith)
as_again (undefined, b, h) e = absurd (ground arith)

served_is :
    round busy_env sample_generated new_locals up.1 up.2
    ≡ (next (again, locals_of served.0), served.1, served.2)
unfolding init aio_set_timeout Configfs.init create_gadget create_parts find_udc Lifecycle.init
    ffs_init ffs_open mount_ffs write_ctrl open_pipes ffs_mark aio_init Configfs.enable round
    wait_read_management_ready is_read_ctrl_ready is_read_eventfd_ready read_ctrl read_eventfd
    process_control_event after_wait pull_control process_control check_event pull_event pull_host
    answer_host read_host read_host_body submit_and_wait check_read to_int32 resize overwrite
served_is = as_again served refl

abbrev again_at_test : Program
again_at_test = record (started served.1 (locals_of served.0)) {
  run_status = true;
  main = wait_running;
  service = inner_test;
  calls = served.2;
}

to_again : Steps busy_env sample_generated (started new_bootloader new_locals) again_at_test
to_again =
    let a = later here (by_service (test_start refl)) in
    let b = later a (by_service (test_outer refl)) in
    let c = later b (by_service (initialise true up.1 up.2 refl up_is)) in
    let d = later c (by_service (test_inner refl)) in
    let e = later d (by_service (mark refl)) in
    later e (by_service (serve again (locals_of served.0) served.1 served.2 refl served_is))

-- One transfer was submitted, and waited for.
two_calls : length (transfers served.2) ≡ 2
unfolding init aio_set_timeout Configfs.init create_gadget create_parts find_udc Lifecycle.init
    ffs_init ffs_open mount_ffs write_ctrl open_pipes ffs_mark aio_init Configfs.enable round
    wait_read_management_ready is_read_ctrl_ready is_read_eventfd_ready read_ctrl read_eventfd
    process_control_event after_wait pull_control process_control check_event pull_event pull_host
    answer_host read_host read_host_body submit_and_wait check_read to_int32 resize overwrite
    transfers
two_calls = refl

loop-AllOwn_example :
    AllOwn (pipes_of served.1.ffs_h) served.2
    × ((pipes_of served.1.ffs_h).limit ≡ some (pos 60000000000))
loop-AllOwn_example =
    loop-AllOwn busy_env new_bootloader sample_generated new_locals again_at_test to_again refl
