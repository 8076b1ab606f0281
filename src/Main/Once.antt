-- ===== src/Main/Once.antt =====
-- When the service runs `init()`, and what the program is then.
use firmware_x.Prelude.{◌≡◌, refl, [], Bool, true, false, arith}
use firmware_x.System.{Env}
use firmware_x.Bootloader.{Bootloader}
use firmware_x.Bootloader.Service.{Generated, Locals}
use firmware_x.Main.{
  Program, wait_running, Service, start, outer_test, initialising, cleaning, started, ServiceStep,
  MainStep, Step, by_service, by_main, Steps, here, later, test_start, test_outer, test_inner,
  initialise, mark, serve, clean, break_inner, break_outer, return_early, unmark, await_running,
  test_counting, count, stop, await_stop,
}

-- Where the service is before its first `init()`, or at the test behind a `cleanup()`.
abbrev pub before_init : Service → Bool
before_init start = true
before_init outer_test = true
before_init initialising = true
before_init _ = false

abbrev pub is_first : Service → Bool
is_first start = true
is_first initialising = true
is_first _ = false

abbrev pub is_cleaning : Service → Bool
is_cleaning cleaning = true
is_cleaning _ = false

-- `b` is the bootloader that the program has begun with.
pub record Once (b : Bootloader) (p : Program) : Type 0 where
  pub told : is_first p.service ≡ true → p.run_control ≡ true
  pub fresh :
      before_init p.service ≡ true
      → p.run_control ≡ true
      → (p.run_status ≡ false) × (p.main ≡ wait_running) × (p.bootloader ≡ b) × (p.calls ≡ [])
  pub down : is_cleaning p.service ≡ true → p.run_control ≡ false

module _ (env : Env) (generated : Generated) (b : Bootloader) where
  service-Once : {p q : Program} → ServiceStep env generated p q → Once b p → Once b q
  service-Once (test_start e) w = ground (arith, w.told, w.fresh, w.down)
  service-Once (test_outer e) w = ground (arith, w.told, w.fresh, w.down)
  service-Once (test_inner e) w = ground (arith, w.told, w.fresh, w.down)
  service-Once (initialise x t h e r) w = ground (arith, w.told, w.fresh, w.down)
  service-Once (mark e) w = ground (arith, w.told, w.fresh, w.down)
  service-Once (serve r l t h e x) w = ground (arith, w.told, w.fresh, w.down)
  service-Once (clean x t h e r) w = ground (arith, w.told, w.fresh, w.down)
  service-Once (break_inner e) w = ground (arith, w.told, w.fresh, w.down)
  service-Once (break_outer e) w = ground (arith, w.told, w.fresh, w.down)
  service-Once (return_early e) w = ground (arith, w.told, w.fresh, w.down)
  service-Once (unmark e) w = ground (arith, w.told, w.fresh, w.down)

  main-Once : {p q : Program} → MainStep env generated p q → Once b p → Once b q
  main-Once (await_running e) w = ground (arith, w.told, w.fresh, w.down)
  main-Once (test_counting n e) w = ground (arith, w.told, w.fresh, w.down)
  main-Once (count n e) w = ground (arith, w.told, w.fresh, w.down)
  main-Once (stop e) w = ground (arith, w.told, w.fresh, w.down)
  main-Once (await_stop e) w = ground (arith, w.told, w.fresh, w.down)

  Step-Once : {p q : Program} → Step env generated p q → Once b p → Once b q
  Step-Once (by_service s) w = service-Once s w
  Step-Once (by_main s) w = main-Once s w

  pub Steps-Once : {p q : Program} → Steps env generated p q → Once b p → Once b q
  Steps-Once here w = w
  Steps-Once (later ss s) w = Step-Once s (Steps-Once ss w)

  pub started-Once : (l : Locals) → Once b (started b l)
  started-Once l = record {
    told = λ e. refl;
    fresh = λ e c. (refl, refl, refl, refl);
    down = λ e. absurd (ground arith);
  }

  -- In every order of the steps: when the service is about to run `init()`, nothing was called yet, the
  -- bootloader is as the program has begun with it, the service has not been marked as running, and
  -- main waits for that. As `init()` makes a call, the service runs it at most once.
  pub init_runs_once :
      (l : Locals) (p : Program)
      → Steps env generated (started b l) p
      → p.service ≡ initialising
      → (p.run_status ≡ false) × (p.main ≡ wait_running) × (p.bootloader ≡ b) × (p.calls ≡ [])
  init_runs_once l p ss e =
      let w = Steps-Once ss (started-Once l) in ground (arith, w.told, w.fresh)
