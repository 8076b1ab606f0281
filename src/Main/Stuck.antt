-- ===== src/Main/Stuck.antt =====
-- What follows on a first initialisation that fails.
use firmware_x.Prelude.{◌≡◌, refl, Bool, true, false, arith, []}
use firmware_x.System.{Env, History, next}
use firmware_x.Bootloader.{Bootloader, init}
use firmware_x.Bootloader.Service.{Generated, Locals}
use firmware_x.Main.{
  Program, wait_running, Service, start, outer_test, initialising, breaking_outer, unmarking,
  returned, started, ServiceStep, MainStep, Step, by_service, by_main, Steps, here, later,
  test_start, test_outer, test_inner, initialise, mark, serve, clean, break_inner, break_outer,
  return_early, unmark, await_running, test_counting, count, stop, await_stop,
}

-- Where the service can be if its first `init()` fails.
abbrev on_failing_path : Service → Bool
on_failing_path start = true
on_failing_path outer_test = true
on_failing_path initialising = true
on_failing_path breaking_outer = true
on_failing_path unmarking = true
on_failing_path returned = true
on_failing_path _ = false

-- Where it is before that.
abbrev before_init : Service → Bool
before_init start = true
before_init outer_test = true
before_init initialising = true
before_init _ = false

record Failing (b t : Bootloader) (h : History) (p : Program) : Type 0 where
  waiting : p.main ≡ wait_running
  unmarked : p.run_status ≡ false
  path : on_failing_path p.service ≡ true
  before :
      before_init p.service ≡ true → (p.run_control ≡ true) × (p.bootloader ≡ b) × (p.calls ≡ [])

module _ (env : Env) (generated : Generated) (b t : Bootloader) (h : History)
    (fails : init env b [] ≡ (next false, t, h)) where
  service-Failing :
      {p q : Program} → ServiceStep env generated p q → Failing b t h p → Failing b t h q
  service-Failing (test_start e) w = ground (arith, w.waiting, w.unmarked, w.path, w.before)
  service-Failing (test_outer e) w = ground (arith, w.waiting, w.unmarked, w.path, w.before)
  service-Failing (test_inner e) w = ground (arith, w.waiting, w.unmarked, w.path, w.before)
  service-Failing (initialise b t h e r) w = ground (arith, w.waiting, w.unmarked, w.path, w.before)
  service-Failing (mark e) w = ground (arith, w.waiting, w.unmarked, w.path, w.before)
  service-Failing (serve r l t h e x) w = ground (arith, w.waiting, w.unmarked, w.path, w.before)
  service-Failing (clean b t h e r) w = ground (arith, w.waiting, w.unmarked, w.path, w.before)
  service-Failing (break_inner e) w = ground (arith, w.waiting, w.unmarked, w.path, w.before)
  service-Failing (break_outer e) w = ground (arith, w.waiting, w.unmarked, w.path, w.before)
  service-Failing (return_early e) w = ground (arith, w.waiting, w.unmarked, w.path, w.before)
  service-Failing (unmark e) w = ground (arith, w.waiting, w.unmarked, w.path, w.before)

  main-Failing : {p q : Program} → MainStep env generated p q → Failing b t h p → Failing b t h q
  main-Failing (await_running e) w = ground (arith, w.waiting, w.unmarked, w.path, w.before)
  main-Failing (test_counting n e) w = ground (arith, w.waiting, w.unmarked, w.path, w.before)
  main-Failing (count n e) w = ground (arith, w.waiting, w.unmarked, w.path, w.before)
  main-Failing (stop e) w = ground (arith, w.waiting, w.unmarked, w.path, w.before)
  main-Failing (await_stop e) w = ground (arith, w.waiting, w.unmarked, w.path, w.before)

  Step-Failing : {p q : Program} → Step env generated p q → Failing b t h p → Failing b t h q
  Step-Failing (by_service s) w = service-Failing s w
  Step-Failing (by_main s) w = main-Failing s w

  Steps-Failing : {p q : Program} → Steps env generated p q → Failing b t h p → Failing b t h q
  Steps-Failing here w = w
  Steps-Failing (later ss s) w = Step-Failing s (Steps-Failing ss w)

  -- If the first `init()` returns false then main waits for ever for the service to run: in no order of
  -- the steps does it come out of its first loop.
  pub failed_init_hangs :
      (l : Locals) (p : Program) → Steps env generated (started b l) p → p.main ≡ wait_running
  failed_init_hangs l p ss =
      let w = Steps-Failing ss (record {
        waiting = refl;
        unmarked = refl;
        path = refl;
        before = λ e. (refl, refl, refl);
      }) in
      w.waiting
