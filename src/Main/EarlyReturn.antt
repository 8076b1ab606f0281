-- ===== src/Main/EarlyReturn.antt =====
-- What follows on a return of usb_service_routine out of its inner loop.
use firmware_x.Prelude.{◌≡◌, ◌≢◌, Bool, true, false, arith}
use firmware_x.System.{Env}
use firmware_x.Bootloader.{Bootloader}
use firmware_x.Bootloader.Service.{Generated, Locals}
use firmware_x.Main.{
  Program, done, Service, serving, breaking_inner, returning, returned, started, ServiceStep,
  MainStep, Step, by_service, by_main, Steps, here, later, test_start, test_outer, test_inner,
  initialise, mark, serve, clean, break_inner, break_outer, return_early, unmark, await_running,
  test_counting, count, stop, await_stop,
}
use firmware_x.Main.Stop.{is_done, started-Watched}

-- Where the service is only with its mark set.
abbrev is_marked : Service → Bool
is_marked serving = true
is_marked breaking_inner = true
is_marked returning = true
is_marked _ = false

record Marked (p : Program) : Type 0 where
  marked : is_marked p.service ≡ true → p.run_status ≡ true

module _ (env : Env) (generated : Generated) where
  service-Marked : {p q : Program} → ServiceStep env generated p q → Marked p → Marked q
  service-Marked (test_start e) w = ground (arith, w.marked)
  service-Marked (test_outer e) w = ground (arith, w.marked)
  service-Marked (test_inner e) w = ground (arith, w.marked)
  service-Marked (initialise b t h e r) w = ground (arith, w.marked)
  service-Marked (mark e) w = ground (arith, w.marked)
  service-Marked (serve r l t h e x) w = ground (arith, w.marked)
  service-Marked (clean b t h e r) w = ground (arith, w.marked)
  service-Marked (break_inner e) w = ground (arith, w.marked)
  service-Marked (break_outer e) w = ground (arith, w.marked)
  service-Marked (return_early e) w = ground (arith, w.marked)
  service-Marked (unmark e) w = ground (arith, w.marked)

  main-Marked : {p q : Program} → MainStep env generated p q → Marked p → Marked q
  main-Marked (await_running e) w = ground (arith, w.marked)
  main-Marked (test_counting n e) w = ground (arith, w.marked)
  main-Marked (count n e) w = ground (arith, w.marked)
  main-Marked (stop e) w = ground (arith, w.marked)
  main-Marked (await_stop e) w = ground (arith, w.marked)

  Step-Marked : {p q : Program} → Step env generated p q → Marked p → Marked q
  Step-Marked (by_service s) w = service-Marked s w
  Step-Marked (by_main s) w = main-Marked s w

  Steps-Marked : {p q : Program} → Steps env generated p q → Marked p → Marked q
  Steps-Marked here w = w
  Steps-Marked (later ss s) w = Step-Marked s (Steps-Marked ss w)

-- Where the routine is, or was, when it returns out of its inner loop.
abbrev is_leaving : Service → Bool
is_leaving returning = true
is_leaving returned = true
is_leaving _ = false

record Left (p : Program) : Type 0 where
  leaving : is_leaving p.service ≡ true
  marked : p.run_status ≡ true
  busy : is_done p.main ≡ false

module _ (env : Env) (generated : Generated) where
  service-Left : {p q : Program} → ServiceStep env generated p q → Left p → Left q
  service-Left (test_start e) w = ground (arith, w.leaving, w.marked, w.busy)
  service-Left (test_outer e) w = ground (arith, w.leaving, w.marked, w.busy)
  service-Left (test_inner e) w = ground (arith, w.leaving, w.marked, w.busy)
  service-Left (initialise b t h e r) w = ground (arith, w.leaving, w.marked, w.busy)
  service-Left (mark e) w = ground (arith, w.leaving, w.marked, w.busy)
  service-Left (serve r l t h e x) w = ground (arith, w.leaving, w.marked, w.busy)
  service-Left (clean b t h e r) w = ground (arith, w.leaving, w.marked, w.busy)
  service-Left (break_inner e) w = ground (arith, w.leaving, w.marked, w.busy)
  service-Left (break_outer e) w = ground (arith, w.leaving, w.marked, w.busy)
  service-Left (return_early e) w = ground (arith, w.leaving, w.marked, w.busy)
  service-Left (unmark e) w = ground (arith, w.leaving, w.marked, w.busy)

  main-Left : {p q : Program} → MainStep env generated p q → Left p → Left q
  main-Left (await_running e) w = ground (arith, w.leaving, w.marked, w.busy)
  main-Left (test_counting n e) w = ground (arith, w.leaving, w.marked, w.busy)
  main-Left (count n e) w = ground (arith, w.leaving, w.marked, w.busy)
  main-Left (stop e) w = ground (arith, w.leaving, w.marked, w.busy)
  main-Left (await_stop e) w = ground (arith, w.leaving, w.marked, w.busy)

  Step-Left : {p q : Program} → Step env generated p q → Left p → Left q
  Step-Left (by_service s) w = service-Left s w
  Step-Left (by_main s) w = main-Left s w

  Steps-Left : {p q : Program} → Steps env generated p q → Left p → Left q
  Steps-Left here w = w
  Steps-Left (later ss s) w = Step-Left s (Steps-Left ss w)

  -- If a round ends with `return`, since the eventfd could not be read, then the routine's mark stays
  -- set, and main never returns: in no order of the steps from there on is it done.
  pub early_return_hangs :
      (b : Bootloader) (l : Locals) (p q : Program)
      → Steps env generated (started b l) p
      → p.service ≡ returning
      → Steps env generated p q
      → (q.run_status ≡ true) × (q.main ≢ done)
  early_return_hangs b l p q ss at rest =
      let m = Steps-Marked env generated ss (record { marked = λ e. ground arith }) in
      let w = started-Watched env generated b l p ss in
      let left = Steps-Left rest (record {
        leaving = ground arith;
        marked = ground (arith, m.marked);
        busy = ground (arith, w.ended);
      }) in
      (left.marked, λ e. ground (arith, left.busy))
