-- ===== src/Main/Finish.antt =====
-- The end of the whole program, main.cpp and the service.
use firmware_x.Prelude.{
  ℕ, zero, suc, ◌+◌, ◌≤◌, leb, ◌≡◌, ◌≢◌, refl, ap, sym, subst, Bool, true, false, Bool-cases, inl,
  inr, arith,
}
use firmware_x.System.{Env, History}
use firmware_x.Bootloader.{Bootloader}
use firmware_x.Bootloader.Service.{Generated, Locals}
use firmware_x.Main.{
  Program, Main, wait_running, counting, counted, stopping, wait_stop, done, after_count,
  inner_test, started, ServiceStep, MainStep, Step, by_service, by_main, Steps, here, later,
  test_start, test_outer, test_inner, initialise, mark, serve, clean, break_inner, break_outer,
  return_early, unmark, await_running, test_counting, count, stop, await_stop,
}
use firmware_x.Main.Bounds.{Steps-append}
use firmware_x.Main.Stop.{is_returned, main_waits}
use firmware_x.Main.Ending.{told_to_stop_ends}

-- Main has told the service to stop, and nothing revokes that.
abbrev has_told : Main → Bool
has_told wait_stop = true
has_told _ = false

record Told (p : Program) : Type 0 where
  pub stays : has_told p.main ≡ true → p.run_control ≡ false

-- The program at the test of the inner loop, with the mark set.
abbrev held : Bool → Main → Locals → Bootloader → History → Program
held control m l t h = record {
  run_control = control;
  run_status = true;
  main = m;
  service = inner_test;
  bootloader = t;
  locals = l;
  calls = h;
}

module _ (env : Env) (generated : Generated) where
  service-Told : {p q : Program} → ServiceStep env generated p q → Told p → Told q
  service-Told (test_start e) w = ground (arith, w.stays)
  service-Told (test_outer e) w = ground (arith, w.stays)
  service-Told (test_inner e) w = ground (arith, w.stays)
  service-Told (initialise b t h e r) w = ground (arith, w.stays)
  service-Told (mark e) w = ground (arith, w.stays)
  service-Told (serve r l t h e x) w = ground (arith, w.stays)
  service-Told (clean b t h e r) w = ground (arith, w.stays)
  service-Told (break_inner e) w = ground (arith, w.stays)
  service-Told (break_outer e) w = ground (arith, w.stays)
  service-Told (return_early e) w = ground (arith, w.stays)
  service-Told (unmark e) w = ground (arith, w.stays)

  main-Told : {p q : Program} → MainStep env generated p q → Told p → Told q
  main-Told (await_running e) w = ground (arith, w.stays)
  main-Told (test_counting n e) w = ground (arith, w.stays)
  main-Told (count n e) w = ground (arith, w.stays)
  main-Told (stop e) w = ground (arith, w.stays)
  main-Told (await_stop e) w = ground (arith, w.stays)

  Step-Told : {p q : Program} → Step env generated p q → Told p → Told q
  Step-Told (by_service s) w = service-Told s w
  Step-Told (by_main s) w = main-Told s w

  Steps-Told : {p q : Program} → Steps env generated p q → Told p → Told q
  Steps-Told here w = w
  Steps-Told (later ss s) w = Step-Told s (Steps-Told ss w)

  module _ (l : Locals) (t : Bootloader) (h : History) where
    count-Steps :
        (c : Bool) (n : ℕ) (m : Main)
        → after_count n ≡ m
        → Steps env generated (held c (counted n) l t h) (held c m l t h)
    count-Steps c n m go =
        subst (λ x. Steps env generated (held c (counted n) l t h) (held c x l t h)) go
          (later here (by_main (count n refl)))

    -- `k` is more than what is left to count.
    counted-Steps :
        (c : Bool) (n k : ℕ)
        → 19 ≤ n + k
        → Steps env generated (held c (counted n) l t h) (held c stopping l t h)
    counted-Steps c n zero far = count-Steps c n stopping (ground arith)
    counted-Steps c n (suc k) far = elim (Bool-cases (leb 20 (n + 1))) [
      | inl last ↦ count-Steps c n stopping (ground arith)
      | inr more ↦
          let on = count-Steps c n (counting (n + 1)) (ground arith) in
          Steps-append env generated (later on (by_main (test_counting (n + 1) refl)))
            (counted-Steps c (n + 1) k (omega arith))
    ]

    counting-Steps :
        (c : Bool) (n : ℕ) → Steps env generated (held c (counting n) l t h) (held c stopping l t h)
    counting-Steps c n =
        Steps-append env generated (later here (by_main (test_counting n refl)))
          (counted-Steps c n 19 (omega arith))

    stopping-Steps :
        (c : Bool) → Steps env generated (held c stopping l t h) (held false wait_stop l t h)
    stopping-Steps c = later here (by_main (stop refl))

    main_stops :
        (c : Bool) (m : Main)
        → (has_told m ≡ true → c ≡ false)
        → m ≢ done
        → Steps env generated (held c m l t h) (held false wait_stop l t h)
    main_stops c wait_running told_ n =
        Steps-append env generated (later here (by_main (await_running refl)))
          (Steps-append env generated (counting-Steps c 0) (stopping-Steps c))
    main_stops c (counting k) told_ n =
        Steps-append env generated (counting-Steps c k) (stopping-Steps c)
    main_stops c (counted k) told_ n =
        Steps-append env generated (counted-Steps c k 19 (omega arith)) (stopping-Steps c)
    main_stops c stopping told_ n = stopping-Steps c
    main_stops c wait_stop told_ n =
        subst (λ x. Steps env generated (held x wait_stop l t h) (held false wait_stop l t h))
          (sym (told_ refl)) here
    main_stops c done told_ n = absurd (n refl)

  module _ (b : Bootloader) (l : Locals) where
    not_done :
        (p : Program) → Steps env generated (started b l) p → p.service ≡ inner_test → p.main ≢ done
    not_done p ss at e =
        let (gone, off) = main_waits env generated b l p ss e in
        let there : is_returned p.service ≡ true = ap is_returned gone in
        let away : is_returned p.service ≡ false = ap is_returned at in ground arith

    -- In every order of the steps so far: from where the service is at the test of its inner loop and is
    -- marked as running, wherever main is, there are steps with which the program comes to its end, main
    -- returning 0, whatever the outside answers: main counts on, tells the service to stop, that cleans
    -- up and takes its mark away, and main sees it.
    pub main_can_return :
        (p : Program)
        → Steps env generated (started b l) p
        → p.service ≡ inner_test
        → p.run_status ≡ true
        → (q : Program) × Steps env generated p q × (q.main ≡ done)
    main_can_return p ss at marked =
        let w = Steps-Told ss (record { stays = λ e. absurd (ground arith) }) in
        let same : held p.run_control p.main p.locals p.bootloader p.calls ≡ p =
          λ i. record p { run_status = sym marked i; service = sym at i } in
        let stopped = held false wait_stop p.locals p.bootloader p.calls in
        let stops =
          subst (λ x. Steps env generated x stopped) same
            (main_stops p.locals p.bootloader p.calls p.run_control p.main w.stays
              (not_done p ss at)) in
        let (t, k, ends) =
          told_to_stop_ends env generated b l stopped (Steps-append env generated ss stops) refl
            refl in
        let ended = Steps-append env generated stops ends in
        (_, later ended (by_main (await_stop refl)), refl)
