-- ===== src/Main/Stop.antt =====
-- What main can rely on when it has stopped the service.
use firmware_x.Prelude.{◌≡◌, refl, ◌⊎◌, inl, inr, Bool, true, false, arith}
use firmware_x.System.{Env}
use firmware_x.Bootloader.{Bootloader}
use firmware_x.Bootloader.Service.{Generated, Locals}
use firmware_x.Main.{
  Program, Main, wait_running, done, Service, returned, started, ServiceStep, MainStep, Step,
  by_service, by_main, Steps, here, later, test_start, test_outer, test_inner, initialise, mark,
  serve, clean, break_inner, break_outer, return_early, unmark, await_running, test_counting, count,
  stop, await_stop,
}

abbrev pub is_returned : Service → Bool
is_returned returned = true
is_returned _ = false

abbrev pub is_waiting : Main → Bool
is_waiting wait_running = true
is_waiting _ = false

abbrev pub is_done : Main → Bool
is_done done = true
is_done _ = false

-- Once main has seen the service run, the mark stays until the service has returned.
pub record Watched (p : Program) : Type 0 where
  pub seen : p.run_status ≡ true ⊎ (is_waiting p.main ≡ true ⊎ is_returned p.service ≡ true)
  pub ended : is_done p.main ≡ true → (is_returned p.service ≡ true) × (p.run_status ≡ false)

module _ (env : Env) (generated : Generated) where
  service-Watched : {p q : Program} → ServiceStep env generated p q → Watched p → Watched q
  service-Watched (test_start e) w = ground (arith, w.seen, w.ended)
  service-Watched (test_outer e) w = ground (arith, w.seen, w.ended)
  service-Watched (test_inner e) w = ground (arith, w.seen, w.ended)
  service-Watched (initialise b t h e r) w = ground (arith, w.seen, w.ended)
  service-Watched (mark e) w = ground (arith, w.seen, w.ended)
  service-Watched (serve r l t h e x) w = ground (arith, w.seen, w.ended)
  service-Watched (clean b t h e r) w = ground (arith, w.seen, w.ended)
  service-Watched (break_inner e) w = ground (arith, w.seen, w.ended)
  service-Watched (break_outer e) w = ground (arith, w.seen, w.ended)
  service-Watched (return_early e) w = ground (arith, w.seen, w.ended)
  service-Watched (unmark e) w = ground (arith, w.seen, w.ended)

  main-Watched : {p q : Program} → MainStep env generated p q → Watched p → Watched q
  main-Watched (await_running e) w = ground (arith, w.seen, w.ended)
  main-Watched (test_counting n e) w = ground (arith, w.seen, w.ended)
  main-Watched (count n e) w = ground (arith, w.seen, w.ended)
  main-Watched (stop e) w = ground (arith, w.seen, w.ended)
  main-Watched (await_stop e) w = ground (arith, w.seen, w.ended)

  Step-Watched : {p q : Program} → Step env generated p q → Watched p → Watched q
  Step-Watched (by_service s) w = service-Watched s w
  Step-Watched (by_main s) w = main-Watched s w

  Steps-Watched : {p q : Program} → Steps env generated p q → Watched p → Watched q
  Steps-Watched here w = w
  Steps-Watched (later ss s) w = Step-Watched s (Steps-Watched ss w)

  pub started-Watched :
      (b : Bootloader) (l : Locals) (p : Program) → Steps env generated (started b l) p → Watched p
  started-Watched b l p ss =
      Steps-Watched ss (record { seen = inr (inl refl); ended = λ e. ground arith })

  -- Whatever the outside answers and however the steps of the two threads come after one another: when
  -- main has returned 0, the service has returned, and its mark is gone.
  pub main_waits :
      (b : Bootloader) (l : Locals) (p : Program)
      → Steps env generated (started b l) p
      → p.main ≡ done
      → (p.service ≡ returned) × (p.run_status ≡ false)
  main_waits b l p ss e = let w = started-Watched b l p ss in ground (arith, w.ended)
