-- ===== src/Main/Traffic.antt =====
-- The transfers of the program as a whole.
use firmware_x.Prelude.{◌≡◌, sym, ap, ◌∙◌, refl, subst, [], true, some}
use firmware_x.Prelude.Int.{pos}
use firmware_x.System.{Env, History}
use firmware_x.System.Traffic.{transfers}
use firmware_x.Functionfs.Aio.{wait_time}
use firmware_x.Functionfs.Traffic.{Pipes, pipes_of, AllOwn}
use firmware_x.Bootloader.{Bootloader}
use firmware_x.Bootloader.Traffic.{transfers-init}
use firmware_x.Bootloader.Service.{Generated, Locals}
use firmware_x.Main.{Program, started, Steps}
use firmware_x.Main.Up.{in_loop, Up, loop-Up}

module _ (env : Env) (b : Bootloader) where
  Up-AllOwn :
      (t : Bootloader) (k : History)
      → Up env b t k
      → AllOwn (pipes_of t.ffs_h) k × ((pipes_of t.ffs_h).limit ≡ some (pos 60000000000))
  unfolding transfers
  Up-AllOwn t k up =
      let (none, limit) = transfers-init env b up.made [] up.calls up.begun in
      let handler = up.attended.handler in
      let same : pipes_of t.ffs_h ≡ pipes_of up.made.ffs_h = ap pipes_of handler.frame in
      (
        subst (λ q. AllOwn q k) (sym same)
            (handler.traffic (pipes_of up.made.ffs_h) refl (rw none tt)),
        ap (λ (q : Pipes). q.limit) same ∙ ap wait_time limit,
      )

  -- In every order of the steps, wherever the service is in its inner loop, or about to clean up: every
  -- transfer that was submitted so far, in the whole run, was a write to the handler's in pipe or a read
  -- from its out pipe, in its context, with the handler's eventfd as its own and the flag set by which the
  -- end is told to that; and every wait for one was
  -- made in that context, for 60 000 000 000 nanoseconds, so that none was made without a limit.
  pub loop-AllOwn :
      (generated : Generated) (l : Locals) (p : Program)
      → Steps env generated (started b l) p
      → in_loop p.service ≡ true
      → AllOwn (pipes_of p.bootloader.ffs_h) p.calls
        × ((pipes_of p.bootloader.ffs_h).limit ≡ some (pos 60000000000))
  loop-AllOwn generated l p ss i = Up-AllOwn p.bootloader p.calls (loop-Up env generated b l p ss i)
