-- ===== src/Main/Progress.antt =====
-- When the service can go on.
use firmware_x.Prelude.{◌≡◌, refl, ap, Bool, true, false, arith}
use firmware_x.System.{Env}
use firmware_x.Functionfs.{fits_fd_set}
use firmware_x.Bootloader.{Bootloader}
use firmware_x.Bootloader.Takedown.{cleanup_returns}
use firmware_x.Bootloader.Service.{Generated, Locals}
use firmware_x.Bootloader.Service.Outside.{WholePackets}
use firmware_x.Bootloader.Service.Safe.{round_returns}
use firmware_x.Main.{
  Program, Service, start, outer_test, inner_test, initialising, marking, serving, cleaning,
  breaking_inner, breaking_outer, returning, unmarking, returned, started, ServiceStep, Steps,
  test_start, test_outer, test_inner, mark, serve, clean, break_inner, break_outer, return_early,
  unmark,
}
use firmware_x.Main.Up.{in_loop, loop-Up}

-- Where the service has nothing more to do, or runs `init()`, which may throw.
abbrev pub ends_or_inits : Service → Bool
ends_or_inits returned = true
ends_or_inits initialising = true
ends_or_inits _ = false

module _ (env : Env) (generated : Generated) (whole : WholePackets env generated) (b : Bootloader)
    (l : Locals) (p : Program) (ss : Steps env generated (started b l) p)
    (ctrl : fits_fd_set p.bootloader.ffs_h.fd_ffs_ep_crtl ≡ true)
    (event : fits_fd_set p.bootloader.ffs_h.fd_eventfd ≡ true) where
  progress :
      (s : Service)
      → p.service ≡ s
      → ends_or_inits s ≡ false
      → (q : Program) × ServiceStep env generated p q
  progress start e n = (_, test_start e)
  progress outer_test e n = (_, test_outer e)
  progress inner_test e n = (_, test_inner e)
  progress initialising e n = absurd (ground arith)
  progress marking e n = (_, mark e)
  progress serving e n =
      let up = loop-Up env generated b l p ss (ap in_loop e) in
      let (r, l', t, k, run) =
        round_returns env generated p.locals p.bootloader p.calls whole (record {
          pointers = up.attended.handler.pointers;
          ctrl_fits = ctrl;
          event_fits = event;
        }) in
      (_, serve r l' t k e run)
  progress cleaning e n =
      let up = loop-Up env generated b l p ss (ap in_loop e) in
      let (r, t, k, run) = cleanup_returns env p.bootloader p.calls up.attended.handler.pointers in
      (_, clean r t k e run)
  progress breaking_inner e n = (_, break_inner e)
  progress breaking_outer e n = (_, break_outer e)
  progress returning e n = (_, return_early e)
  progress unmarking e n = (_, unmark e)
  progress returned e n = absurd (ground arith)

  -- In every order of the steps so far: unless the service has returned or is about to run `init()`, it
  -- can go on: no round and no `cleanup()` throws, goes past the end of a vector, follows a null pointer,
  -- or gives a descriptor outside it to an `fd_set`. The loads of the id and the size in the parser,
  -- which C++ leaves undefined, are taken as the target makes them. It is supposed that the control file
  -- and the eventfd are from 0 to 1023, that every transfer fails or has the 9 bytes of a header or
  -- more, and that the features have from 55 to 2 ^ 32 - 1 bytes.
  pub service_goes_on :
      ends_or_inits p.service ≡ false → (q : Program) × ServiceStep env generated p q
  service_goes_on n = progress p.service refl n
