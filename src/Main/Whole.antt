-- ===== src/Main/Whole.antt =====
-- A whole run of the program, main.cpp and the service, to the return of main.
use firmware_x.Prelude.{◌≡◌, ◌⊎◌, inl, inr, refl, ap, Bool, true, false, arith}
use firmware_x.System.{Env, History, next}
use firmware_x.Bootloader.{Bootloader, cleanup}
use firmware_x.Bootloader.Service.{Generated, Locals}
use firmware_x.Main.{
  Program, wait_running, done, Service, start, outer_test, breaking_outer, serving, returning,
  unmarking, cleaning, returned, started, ServiceStep, MainStep, Step, by_service, by_main, Steps,
  here, later, test_start, test_outer, test_inner, initialise, mark, serve, clean, break_inner,
  break_outer, return_early, unmark, await_running, test_counting, count, stop, await_stop,
}
use firmware_x.Main.Stop.{is_returned, main_waits}
use firmware_x.Main.Once.{Once, Steps-Once, started-Once}
use firmware_x.Main.Up.{in_loop, Up, loop-Up}
use firmware_x.Main.Settled.{Settled, program_takes_down}

-- The run has come through its loop: `cleanup()`, called on what `init()` has made and the rounds have
-- left, has returned `r`, and nothing was called since.
pub record Whole (env : Env) (b : Bootloader) (t : Bootloader) (k : History) : Type 0 where
  pub u : Bootloader
  pub j : History
  pub r : Bool
  pub up : Up env b u j
  pub ended : cleanup env u j ≡ (next r, t, k)
  pub settled : Settled env b r k

-- Where the service is before its loop, or behind it.
abbrev outside : Service → Bool
outside start = true
outside outer_test = true
outside breaking_outer = true
outside unmarking = true
outside returned = true
outside _ = false

-- Where a round has begun.
abbrev in_round : Service → Bool
in_round serving = true
in_round returning = true
in_round _ = false

-- The service has not been seen, or has left its mark behind.
abbrev Unseen : Program → Type 0
Unseen p =
    ((p.run_status ≡ false) × (p.main ≡ wait_running))
    ⊎ ((is_returned p.service ≡ true) × (p.run_status ≡ true))

record Run (env : Env) (b : Bootloader) (p : Program) : Type 0 where
  pub marked : in_round p.service ≡ true → p.run_status ≡ true
  pub past : outside p.service ≡ true → Whole env b p.bootloader p.calls ⊎ Unseen p

module _ (env : Env) (generated : Generated) (b : Bootloader) (l : Locals) where
  cleaned :
      (p : Program) (x : Bool) (t : Bootloader) (k : History)
      → Steps env generated (started b l) p
      → p.service ≡ cleaning
      → cleanup env p.bootloader p.calls ≡ (next x, t, k)
      → Whole env b t k
  cleaned p x t k ss e r = record {
    u = p.bootloader;
    j = p.calls;
    r = x;
    up = loop-Up env generated b l p ss (ap in_loop e);
    ended = r;
    settled = program_takes_down env b generated l p t k x ss e r;
  }

  service-Run :
      {p q : Program}
      → ServiceStep env generated p q
      → Steps env generated (started b l) p
      → Once b p
      → Run env b p
      → Run env b q
  service-Run {p} (test_start e) ss o w = ground (arith, w.marked, w.past)
  service-Run {p} (test_outer e) ss o w = ground (arith, w.marked, w.past)
  service-Run {p} (test_inner e) ss o w = ground (arith, w.marked, w.past)
  service-Run {p} (initialise x t h e r) ss o w = ground (arith, w.marked, w.past, o.fresh, o.told)
  service-Run {p} (mark e) ss o w = ground (arith, w.marked, w.past)
  service-Run {p} (serve r l' t h e x) ss o w = ground (arith, w.marked, w.past)
  service-Run {p} (clean x t h e r) ss o w = record {
    marked = λ i. absurd (ground arith);
    past = λ i. inl (cleaned p x t h ss e r);
  }
  service-Run {p} (break_inner e) ss o w = ground (arith, w.marked, w.past)
  service-Run {p} (break_outer e) ss o w = ground (arith, w.marked, w.past)
  service-Run {p} (return_early e) ss o w = ground (arith, w.marked, w.past)
  service-Run {p} (unmark e) ss o w = ground (arith, w.marked, w.past)

  main-Run : {p q : Program} → MainStep env generated p q → Run env b p → Run env b q
  main-Run (await_running e) w = ground (arith, w.marked, w.past)
  main-Run (test_counting n e) w = ground (arith, w.marked, w.past)
  main-Run (count n e) w = ground (arith, w.marked, w.past)
  main-Run (stop e) w = ground (arith, w.marked, w.past)
  main-Run (await_stop e) w = ground (arith, w.marked, w.past)

  Step-Run :
      {p q : Program}
      → Step env generated p q
      → Steps env generated (started b l) p
      → Once b p
      → Run env b p
      → Run env b q
  Step-Run (by_service s) ss o w = service-Run s ss o w
  Step-Run (by_main s) ss o w = main-Run s w

  Steps-Run : (p : Program) → Steps env generated (started b l) p → Run env b p
  Steps-Run p here = record {
    marked = λ i. absurd (ground arith);
    past = λ i. inr (inl (refl, refl));
  }
  Steps-Run p (later {q} ss s) =
      Step-Run s ss (Steps-Once env generated b ss (started-Once env generated b l))
        (Steps-Run q ss)

  -- In every order of the steps: when main has returned 0, `init()` on the bootloader of the start had
  -- returned true, the rounds since have kept what it made, and `cleanup()` was then called and has
  -- returned, true or false, with nothing called behind it. Nothing was taken down in the whole run but
  -- the first part of this list, in this order and each once: the gadget disabled, the pipes and the
  -- control file with positive descriptors closed, the file system unmounted, the context destroyed,
  -- the gadget removed, all as `init()` has made them; and all of it if `cleanup()` returned true.
  pub whole_run :
      (p : Program)
      → Steps env generated (started b l) p
      → p.main ≡ done
      → Whole env b p.bootloader p.calls
  whole_run p ss e =
      let (gone, off) = main_waits env generated b l p ss e in
      let w = Steps-Run p ss in ground (arith, w.past, ap outside gone)
