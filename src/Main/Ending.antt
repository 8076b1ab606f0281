-- ===== src/Main/Ending.antt =====
-- The end of the service when it is told to stop.
use firmware_x.Prelude.{◌≡◌, false, ap, sym, subst}
use firmware_x.System.{Env, History}
use firmware_x.Bootloader.{Bootloader}
use firmware_x.Bootloader.Takedown.{cleanup_returns}
use firmware_x.Bootloader.Service.{Generated, Locals}
use firmware_x.Main.{Program, inner_test, returned, started, Steps}
use firmware_x.Main.Bounds.{told, stop_reaches_end}
use firmware_x.Main.Up.{in_loop, loop-Up}

module _ (env : Env) (generated : Generated) (b : Bootloader) (l : Locals) where
  -- In every order of the steps so far: when the service is at the test of its inner loop and is told
  -- to stop, it can come to its end by steps of its own, whatever the outside answers: `cleanup()`
  -- returns, the mark is gone, and main is where it was.
  pub told_to_stop_ends :
      (p : Program)
      → Steps env generated (started b l) p
      → p.service ≡ inner_test
      → p.run_control ≡ false
      → (t : Bootloader) × (k : History) × Steps env generated p
          (told p.main p.locals returned false t k)
  told_to_stop_ends p ss at stop =
      let up = loop-Up env generated b l p ss (ap in_loop at) in
      let (r, t, k, e) = cleanup_returns env p.bootloader p.calls up.attended.handler.pointers in
      let same : told p.main p.locals inner_test p.run_status p.bootloader p.calls ≡ p =
        λ i. record p { run_control = sym stop i; service = sym at i } in
      (
        t,
        k,
        subst (λ q. Steps env generated q (told p.main p.locals returned false t k)) same
            (stop_reaches_end env generated p.main p.locals t k p.run_status r p.bootloader p.calls
              e),
      )
