-- ===== src/Main/Handshake.antt =====
-- The two flags of main.cpp and the service, as an abstract machine.
use firmware_x.Prelude.{◌≡◌, ap, ◌⊎◌, inl, inr, refl, Bool, true, false, arith}
use firmware_x.System.{Env}
use firmware_x.Bootloader.{Bootloader}
use firmware_x.Bootloader.Service.{Generated, Locals}
use firmware_x.Main.{
  Program, Main, wait_running, counting, counted, stopping, wait_stop, done, returned, started,
  ServiceStep, MainStep, Step, by_service, by_main, Steps, here, later, test_start, test_outer,
  test_inner, initialise, mark, serve, clean, break_inner, break_outer, return_early, unmark,
  await_running, test_counting, count, stop, await_stop, at_start, at_outer, at_inner, after_init,
  after_round, after_cleanup, at_wait_running, at_wait_stop, cleaning, unmarking,
}
use firmware_x.Main.Stop.{is_returned, Watched, started-Watched}

-- The service: not marked yet; marked; at its end with the mark gone, or with the mark left behind.
pub data Phase : Type 0 where
  idle live over stale : Phase

-- Main: before it has seen the mark; after that; and at its end.
pub data Stage : Type 0 where
  before watching finished : Stage

pub record View : Type 0 where
  pub phase : Phase
  pub stage : Stage

infix 40 ◌⟶◌ ◌⟶*◌
pub data ◌⟶◌ : View → View → Type 0 where
  starts : {s : Stage} → record { phase = idle; stage = s } ⟶ record { phase = live; stage = s }
  gives_up : {s : Stage} → record { phase = idle; stage = s } ⟶ record { phase = over; stage = s }
  stops : {s : Stage} → record { phase = live; stage = s } ⟶ record { phase = over; stage = s }
  leaves : {s : Stage} → record { phase = live; stage = s } ⟶ record { phase = stale; stage = s }
  sees : record { phase = live; stage = before } ⟶ record { phase = live; stage = watching }
  sees_late : record { phase = stale; stage = before } ⟶ record { phase = stale; stage = watching }
  finishes : record { phase = over; stage = watching } ⟶ record { phase = over; stage = finished }

pub data ◌⟶*◌ : View → View → Type 0 where
  stays : {v : View} → v ⟶* v
  goes : {u v w : View} → u ⟶* v → v ⟶ w → u ⟶* w

-- In the machine, main is at its end only with the service at its end and the mark gone.
pub ⟶*-finished :
    {v : View} → record { phase = idle; stage = before } ⟶* v → v.stage ≡ finished → v.phase ≡ over
⟶*-finished stays e = absurd (ground arith)
⟶*-finished (goes run starts) e = absurd (ground (arith, ⟶*-finished run e))
⟶*-finished (goes run gives_up) e = refl
⟶*-finished (goes run stops) e = refl
⟶*-finished (goes run leaves) e = absurd (ground (arith, ⟶*-finished run e))
⟶*-finished (goes run sees) e = absurd (ground arith)
⟶*-finished (goes run sees_late) e = absurd (ground arith)
⟶*-finished (goes run finishes) e = refl

-- The view of a program.
abbrev pub phase_of : Bool → Bool → Phase
phase_of false false = idle
phase_of false true = live
phase_of true false = over
phase_of true true = stale

abbrev pub stage_of : Main → Stage
stage_of wait_running = before
stage_of (counting n) = watching
stage_of (counted n) = watching
stage_of stopping = watching
stage_of wait_stop = watching
stage_of done = finished

abbrev pub view : Program → View
view p = record { phase = phase_of (is_returned p.service) p.run_status; stage = stage_of p.main }

-- A step is one of the machine, or none.
abbrev Follows : View → View → Type 0
Follows u v = (u ≡ v) ⊎ (u ⟶ v)

abbrev of : Bool → Bool → Stage → View
of ended marked stage = record { phase = phase_of ended marked; stage = stage }

-- The service goes on, or returns, with its mark as it is.
stays_or_returns :
    (ended marked : Bool) (s : Stage) → Follows (of false marked s) (of ended marked s)
stays_or_returns false marked s = inl refl
stays_or_returns true false s = inr gives_up
stays_or_returns true true s = inr leaves

marks : (marked : Bool) (s : Stage) → Follows (of false marked s) (of false true s)
marks false s = inr starts
marks true s = inl refl

unmarks : (marked : Bool) (s : Stage) → Follows (of false marked s) (of true false s)
unmarks false s = inr gives_up
unmarks true s = inr stops

-- Main sees the mark, or waits on.
looks :
    (ended marked : Bool)
    → Follows (of ended marked before) (of ended marked (stage_of (at_wait_running marked)))
looks ended false = inl refl
looks false true = inr sees
looks true true = inr sees_late

-- Main has seen the mark, which stays until the service has returned.
waits :
    (ended marked : Bool)
    → (marked ≡ true) ⊎ (ended ≡ true)
    → Follows (of ended marked watching) (of ended marked (stage_of (at_wait_stop marked)))
waits ended true seen = inl refl
waits true false seen = inr finishes
waits false false seen = absurd (ground arith)

module _ (env : Env) (generated : Generated) where
  service-Follows : {p q : Program} → ServiceStep env generated p q → Follows (view p) (view q)
  service-Follows {p} (test_start e) =
      let runs : is_returned p.service ≡ false = ap is_returned e in
      rw runs
        (stays_or_returns (is_returned (at_start p.run_control)) p.run_status (stage_of p.main))
  service-Follows {p} (test_outer e) =
      let runs : is_returned p.service ≡ false = ap is_returned e in
      rw runs
        (stays_or_returns (is_returned (at_outer p.run_control)) p.run_status (stage_of p.main))
  service-Follows {p} (test_inner e) =
      let runs : is_returned p.service ≡ false = ap is_returned e in
      rw runs
        (stays_or_returns (is_returned (at_inner p.run_control)) p.run_status (stage_of p.main))
  service-Follows {p} (initialise x t h e r) =
      let runs : is_returned p.service ≡ false = ap is_returned e in
      rw runs (stays_or_returns (is_returned (after_init x)) p.run_status (stage_of p.main))
  service-Follows {p} (serve r l t h e x) =
      let runs : is_returned p.service ≡ false = ap is_returned e in
      rw runs (stays_or_returns (is_returned (after_round r)) p.run_status (stage_of p.main))
  service-Follows {p} (clean x t h e r) =
      let runs : is_returned p.service ≡ false = ap is_returned e in
      rw runs (stays_or_returns (is_returned (after_cleanup x)) p.run_status (stage_of p.main))
  service-Follows {p} (break_inner e) =
      let runs : is_returned p.service ≡ false = ap is_returned e in
      rw runs (stays_or_returns (is_returned (cleaning)) p.run_status (stage_of p.main))
  service-Follows {p} (break_outer e) =
      let runs : is_returned p.service ≡ false = ap is_returned e in
      rw runs (stays_or_returns (is_returned (unmarking)) p.run_status (stage_of p.main))
  service-Follows {p} (return_early e) =
      let runs : is_returned p.service ≡ false = ap is_returned e in
      rw runs (stays_or_returns (is_returned (returned)) p.run_status (stage_of p.main))
  service-Follows {p} (mark e) =
      let runs : is_returned p.service ≡ false = ap is_returned e in
      rw runs (marks p.run_status (stage_of p.main))
  service-Follows {p} (unmark e) =
      let runs : is_returned p.service ≡ false = ap is_returned e in
      rw runs (unmarks p.run_status (stage_of p.main))

  main-Follows :
      {p q : Program} → MainStep env generated p q → Watched p → Follows (view p) (view q)
  main-Follows {p} (await_running e) w =
      let at : stage_of p.main ≡ before = ap stage_of e in
      rw at (looks (is_returned p.service) p.run_status)
  main-Follows {p} (test_counting n e) w = inl (ground arith)
  main-Follows {p} (count n e) w = inl (ground arith)
  main-Follows {p} (stop e) w = inl (ground arith)
  main-Follows {p} (await_stop e) w =
      let at : stage_of p.main ≡ watching = ap stage_of e in
      rw at (waits (is_returned p.service) p.run_status (ground (arith, w.seen)))

  Step-Follows : {p q : Program} → Step env generated p q → Watched p → Follows (view p) (view q)
  Step-Follows (by_service s) w = service-Follows s
  Step-Follows (by_main s) w = main-Follows s w

  run_seen :
      (b : Bootloader) (l : Locals) (p : Program)
      → Steps env generated (started b l) p
      → record { phase = idle; stage = before } ⟶* view p
  run_seen b l p here = stays
  run_seen b l p (later {q} ss s) =
      let run = run_seen b l q ss in
      elim (Step-Follows s (started-Watched env generated b l q ss)) [
        | inl same ↦ rw⁻¹ same run
        | inr step ↦ goes run step
      ]

  -- The threads refine the machine, step by step: whatever the outside answers and in every order of the
  -- steps, from the start on, what is seen of the program so far is a run of the machine, and each
  -- further step of a thread is then seen as one transition of the machine, or leaves the view as it is.
  pub refines_handshake :
      (b : Bootloader) (l : Locals) (p q : Program)
      → Steps env generated (started b l) p
      → Step env generated p q
      → (record { phase = idle; stage = before } ⟶* view p)
        × ((view p ≡ view q) ⊎ (view p ⟶ view q))
  refines_handshake b l p q ss s =
      (run_seen b l p ss, Step-Follows s (started-Watched env generated b l p ss))
