-- ===== src/Main/Bounds.antt =====
-- How long main counts, and how a service comes to its end when it is told to stop.
use firmware_x.Prelude.{ℕ, ◌<◌, ◌≡◌, refl, Bool, true, false, ltb, ltb→lt, arith}
use firmware_x.System.{Env, History, next}
use firmware_x.Bootloader.{Bootloader, cleanup}
use firmware_x.Bootloader.Service.{Generated, Locals}
use firmware_x.Main.{
  Program, Main, counting, counted, Service, inner_test, returned, started, after_count,
  after_cleanup, counter_limit, ServiceStep, MainStep, Step, by_service, by_main, Steps, here,
  later, test_start, test_outer, test_inner, initialise, mark, serve, clean, break_inner,
  break_outer, return_early, unmark, await_running, test_counting, count, stop, await_stop,
}

-- What main has counted, before 20.
abbrev count_is_low : Main → Bool
count_is_low (counting n) = ltb n counter_limit
count_is_low (counted n) = ltb n counter_limit
count_is_low _ = true

record Low (p : Program) : Type 0 where
  low : count_is_low p.main ≡ true

after_count-low : (n : ℕ) → count_is_low (after_count n) ≡ true
after_count-low n = ground arith

-- A program with `run_control` false.
abbrev pub told : Main → Locals → Service → Bool → Bootloader → History → Program
told m l service run_status b h = record {
  run_control = false;
  run_status = run_status;
  main = m;
  service = service;
  bootloader = b;
  locals = l;
  calls = h;
}

module _ (env : Env) (generated : Generated) where
  service-Low : {p q : Program} → ServiceStep env generated p q → Low p → Low q
  service-Low (test_start e) w = record { low = w.low }
  service-Low (test_outer e) w = record { low = w.low }
  service-Low (test_inner e) w = record { low = w.low }
  service-Low (initialise b t h e r) w = record { low = w.low }
  service-Low (mark e) w = record { low = w.low }
  service-Low (serve r l t h e x) w = record { low = w.low }
  service-Low (clean b t h e r) w = record { low = w.low }
  service-Low (break_inner e) w = record { low = w.low }
  service-Low (break_outer e) w = record { low = w.low }
  service-Low (return_early e) w = record { low = w.low }
  service-Low (unmark e) w = record { low = w.low }

  main-Low : {p q : Program} → MainStep env generated p q → Low p → Low q
  main-Low (await_running e) w = ground (arith, w.low)
  main-Low (test_counting n e) w = ground (arith, w.low)
  main-Low (count n e) w = record { low = after_count-low n }
  main-Low (stop e) w = ground (arith, w.low)
  main-Low (await_stop e) w = ground (arith, w.low)

  Step-Low : {p q : Program} → Step env generated p q → Low p → Low q
  Step-Low (by_service s) w = service-Low s w
  Step-Low (by_main s) w = main-Low s w

  Steps-Low : {p q : Program} → Steps env generated p q → Low p → Low q
  Steps-Low here w = w
  Steps-Low (later ss s) w = Step-Low s (Steps-Low ss w)

  -- While main counts the seconds of the running service, the counter is below 20.
  pub counter_bound :
      (b : Bootloader) (l : Locals) (p : Program) (n : ℕ)
      → Steps env generated (started b l) p
      → p.main ≡ counting n
      → n < 20
  counter_bound b l p n ss e =
      let w = Steps-Low ss (record { low = refl }) in ltb→lt n 20 (ground (arith, w.low))

  pub Steps-append :
      {p q r : Program}
      → Steps env generated p q
      → Steps env generated q r
      → Steps env generated p r
  Steps-append ss here = ss
  Steps-append ss (later ts t) = later (Steps-append ss ts) t

  module _ (m : Main) (l : Locals) (t : Bootloader) (h : History) where
    after_cleanup-Steps :
        (s r : Bool)
        → Steps env generated (told m l (after_cleanup r) s t h) (told m l returned false t h)
    after_cleanup-Steps s true =
        later (later here (by_service (test_outer refl))) (by_service (unmark refl))
    after_cleanup-Steps s false =
        later (later here (by_service (break_outer refl))) (by_service (unmark refl))

    -- When `run_control` is false at the test of the inner loop, and `cleanup()` returns, true or false,
    -- then the routine can come to its end by steps of its own, with its mark gone, and nothing called
    -- behind `cleanup()`.
    pub stop_reaches_end :
        (s r : Bool) (b : Bootloader) (k : History)
        → cleanup env b k ≡ (next r, t, h)
        → Steps env generated (told m l inner_test s b k) (told m l returned false t h)
    stop_reaches_end s r b k e =
        let to_cleaning = later here (by_service (test_inner refl)) in
        let cleaned = later to_cleaning (by_service (clean r t h refl e)) in
        Steps-append cleaned (after_cleanup-Steps s r)
