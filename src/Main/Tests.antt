-- ===== src/Main/Tests.antt =====
-- The program as a whole, on runs that idle, stop and clean up.
use firmware_x.Prelude.{ℕ, leb→le, ltb→lt, arith, ◌≡◌, ◌≤◌, refl, ◌⊎◌, [], ◌∷◌, Bool, true, false}
use firmware_x.Prelude.Int.{pos, to_int32}
use firmware_x.System.{History, Exit, next, Env, Reply, select}
use firmware_x.System.Sample.{sample_env}
use firmware_x.Functionfs.{aio_set_timeout, wait_read_management_ready}
use firmware_x.Functionfs.Mount.{ffs_init, ffs_open, mount_ffs, write_ctrl, open_pipes, ffs_mark}
use firmware_x.Functionfs.Aio.{aio_init}
use firmware_x.Functionfs.Lifecycle
use firmware_x.Configfs
use firmware_x.Configfs.{create_gadget, create_parts, find_udc}
use firmware_x.Bootloader.{Bootloader, init}
use firmware_x.Bootloader.Service.{Locals, Round, again, round}
use firmware_x.Bootloader.Sample.{new_bootloader, sample_generated, new_locals}
use firmware_x.Main.{
  Program, Main, wait_running, done, Service, inner_test, serving, initialising, started, Steps,
  here, later, by_main, await_stop, by_service, test_start, test_outer, test_inner, initialise,
  mark, serve, ServiceStep,
}
use firmware_x.Main.Sample.{select_env, run, at, to_serving, stopped, to_stopped, ended, to_end}
use firmware_x.Main.Once.{init_runs_once}
use firmware_x.Main.Up.{Up, loop-Up}
use firmware_x.Main.Handshake.{
  View, idle, before, watching, over, finished, ◌⟶◌, ◌⟶*◌, refines_handshake,
}
use firmware_x.Main.Whole.{Whole, whole_run}
use firmware_x.Main.Finish.{main_can_return}
use firmware_x.Main.Progress.{service_goes_on}

refines_handshake_example :
    (record { phase = idle; stage = before } ⟶* record { phase = over; stage = watching })
    × ((◌≡◌ {A = View}
          (record { phase = over; stage = watching })
          (record { phase = over; stage = finished }))
        ⊎ (record { phase = over; stage = watching } ⟶ record { phase = over; stage = finished }))
refines_handshake_example =
    refines_handshake select_env sample_generated new_bootloader new_locals stopped ended to_stopped
      (by_main (await_stop refl))

abbrev at_init : Program
at_init = record (started new_bootloader new_locals) { service = initialising }

to_init : Steps select_env sample_generated (started new_bootloader new_locals) at_init
to_init = later (later here (by_service (test_start refl))) (by_service (test_outer refl))

init_runs_once_example :
    (at_init.run_status ≡ false)
    × (at_init.main ≡ wait_running)
    × (at_init.bootloader ≡ new_bootloader)
    × (at_init.calls ≡ [])
init_runs_once_example =
    init_runs_once select_env sample_generated new_bootloader new_locals at_init to_init refl

loop-Up_example : Up select_env new_bootloader run.1 run.2
loop-Up_example =
    loop-Up select_env sample_generated new_bootloader new_locals (at wait_running serving)
      to_serving refl

whole_run_example : Whole select_env new_bootloader ended.bootloader ended.calls
whole_run_example =
    whole_run select_env sample_generated new_bootloader new_locals ended to_end refl

-- An outside where nothing comes from the host, and any transfer has 64 bytes.
abbrev idle_answer : History → Reply
idle_answer (select n fds t ∷ h) = record (sample_env.answer []) { ret = pos 0; res = pos 64 }
idle_answer h = record (sample_env.answer h) { res = pos 64 }

abbrev idle_env : Env
idle_env = record sample_env { answer = idle_answer }

abbrev up : Exit Bool × Bootloader × History
up = init idle_env new_bootloader []

up_is : init idle_env new_bootloader [] ≡ (next true, up.1, up.2)
unfolding init aio_set_timeout Configfs.init create_gadget create_parts find_udc Lifecycle.init
    ffs_init ffs_open mount_ffs write_ctrl open_pipes ffs_mark aio_init Configfs.enable
up_is = refl

abbrev idled : Exit (Round × Locals) × Bootloader × History
idled = round idle_env sample_generated new_locals up.1 up.2

idled_is :
    round idle_env sample_generated new_locals up.1 up.2
    ≡ (next (again, new_locals), idled.1, idled.2)
unfolding init aio_set_timeout Configfs.init create_gadget create_parts find_udc Lifecycle.init
    ffs_init ffs_open mount_ffs write_ctrl open_pipes ffs_mark aio_init Configfs.enable round
    wait_read_management_ready
idled_is = refl

abbrev idling : Main → Service → Exit Bool × Bootloader × History → Program
idling m service r = record (started r.1 new_locals) {
  run_status = true;
  main = m;
  service = service;
  calls = r.2;
}

to_round :
    Steps idle_env sample_generated
      (started new_bootloader new_locals)
      (idling wait_running serving up)
to_round =
    let a = later here (by_service (test_start refl)) in
    let b = later a (by_service (test_outer refl)) in
    let c = later b (by_service (initialise true up.1 up.2 refl up_is)) in
    let d = later c (by_service (test_inner refl)) in later d (by_service (mark refl))

whole_packets : (h : History) (n : ℕ) → to_int32 (idle_answer h).res ≡ pos n → 9 ≤ n
unfolding to_int32
whole_packets [] n e = ground arith
whole_packets (select m fds t ∷ h) n e = ground arith
whole_packets (_ ∷ h) n e = ground arith

service_goes_on_example :
    (q : Program) × ServiceStep idle_env sample_generated (idling wait_running serving up) q
unfolding init Configfs.init create_gadget create_parts find_udc Lifecycle.init ffs_init ffs_open
    mount_ffs write_ctrl open_pipes ffs_mark aio_init Configfs.enable
service_goes_on_example =
    service_goes_on idle_env sample_generated
      (record { packets = whole_packets; enough = leb→le _ _ refl; fits = ltb→lt _ _ refl })
      new_bootloader new_locals (idling wait_running serving up) to_round refl refl refl

-- The service is at the test of its loop again, and main waits still.
abbrev idle_again : Program
idle_again = idling wait_running inner_test (next true, idled.1, idled.2)

to_idle_again : Steps idle_env sample_generated (started new_bootloader new_locals) idle_again
to_idle_again = later to_round (by_service (serve again new_locals idled.1 idled.2 refl idled_is))

main_can_return_example :
    (q : Program) × Steps idle_env sample_generated idle_again q × (q.main ≡ done)
main_can_return_example =
    main_can_return idle_env sample_generated new_bootloader new_locals idle_again to_idle_again
      refl refl
