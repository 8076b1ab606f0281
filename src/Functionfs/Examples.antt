-- ===== src/Functionfs/Examples.antt =====
-- The handler against an outside where every call succeeds: a whole round, and the theorems at it.
use firmware_x.Prelude.{◌≡◌, ◌≢◌, refl, [], ◌∷◌, Bool, true, false, arith}
use firmware_x.Prelude.Int.{pos, negsuc, minus_one, is_nonneg, to_int32}
use firmware_x.System.{
  ioctl, fifo_status, fifo_flush, clear_halt, close, umount, History, Env, Exit, next,
}
use firmware_x.System.Undone.{undone}
use firmware_x.System.Sample.{sample_env}
use firmware_x.Functionfs.{Handler, bind, unbind, enable, disable, setup}
use firmware_x.Functionfs.Sample.{fresh, up, down, running}
use firmware_x.Functionfs.Mount.{
  ffs_init, ffs_open, mount_ffs, write_ctrl, open_pipes, ffs_mark, ffs_cleanup, close_pipe,
  close_ctrl,
}
use firmware_x.Functionfs.Mount.Init.{releases, Mounted, ffs_init-true}
use firmware_x.Functionfs.Mount.Failure.{Abandons, ffs_init-failed}
use firmware_x.Functionfs.Mount.Cleanup.{mount_round}
use firmware_x.Functionfs.Aio.{write_host, read_host, resize, overwrite}
use firmware_x.Functionfs.Aio.Transfers.{write_host-result}
use firmware_x.Functionfs.Aio.Reads.{read_host-result}
use firmware_x.Functionfs.Events.{process_control_events, control_flags_lem}
use firmware_x.Functionfs.Ioctl
use firmware_x.Functionfs.Ioctl.Pipes.{close_pipe_agrees}

abbrev mounted : Exit Bool × Handler × History
mounted = ffs_init sample_env fresh []

mounted_true : mounted.0 ≡ next true
unfolding ffs_init ffs_open mount_ffs write_ctrl open_pipes ffs_mark
mounted_true = refl

mounted_up : ffs_init sample_env fresh [] ≡ (next true, up, mounted.2)
unfolding ffs_init ffs_open mount_ffs write_ctrl open_pipes ffs_mark
mounted_up = refl

ffs_init-true_example : Mounted sample_env fresh up [] mounted.2
ffs_init-true_example = ffs_init-true sample_env fresh up [] mounted.2 mounted_up

abbrev unmounted : Exit Bool × Handler × History
unmounted = ffs_cleanup sample_env up mounted.2

unmounted_down : ffs_cleanup sample_env up mounted.2 ≡ (next true, down, unmounted.2)
unfolding ffs_cleanup close_pipe close_ctrl
unmounted_down = refl

-- The same outside, but no file can be opened.
abbrev closed_env : Env
closed_env = record sample_env { answer = λ h. record (sample_env.answer h) { ret = negsuc 0 } }

refused : (ffs_init closed_env fresh []).0 ≢ next true
unfolding ffs_init ffs_open mount_ffs
refused e = ground arith

ffs_init-failed_example :
    Abandons fresh [] (ffs_init closed_env fresh []).1 (ffs_init closed_env fresh []).2
ffs_init-failed_example = ffs_init-failed closed_env fresh [] refused

mount_round_example :
    (releases unmounted.2 ≡ umount ∷ close (pos 4) ∷ close (pos 6) ∷ close (pos 5) ∷ releases [])
    × (down.fd_eventfd ≡ up.fd_eventfd)
    × (is_nonneg down.fd_eventfd ≡ true)
    × (down.ffs_initialized ≡ false)
mount_round_example =
    mount_round sample_env fresh up down [] mounted.2 unmounted.2 mounted_up unmounted_down refl
      refl refl

write_host-result_example : (write_host sample_env (1 ∷ 2 ∷ []) running []).0 ≡ next (true, [])
write_host-result_example =
    write_host-result sample_env (1 ∷ 2 ∷ []) running [] 9 sample_env.new_iocb sample_env.new_iocb
      refl refl refl

read_host-result_example :
    (read_host sample_env [] minus_one running []).0 ≡ next (true, 0x3f ∷ 1 ∷ 2 ∷ [], pos 3)
unfolding resize overwrite to_int32
read_host-result_example =
    read_host-result sample_env [] minus_one running [] 9 sample_env.new_iocb sample_env.new_iocb
      refl refl refl

control_flags_lem_example :
    process_control_events (bind ∷ disable ∷ enable ∷ unbind ∷ setup ∷ []) fresh
    ≡ record fresh { ffs_enabled = true; ffs_binded = false }
control_flags_lem_example = control_flags_lem (bind ∷ disable ∷ enable ∷ unbind ∷ setup ∷ []) fresh

-- The pipe has bytes left, which are thrown away.
abbrev flushed : History
flushed = ioctl (pos 5) clear_halt ∷ ioctl (pos 5) fifo_flush ∷ ioctl (pos 5) fifo_status ∷ []

close_pipe_agrees_example :
    (Ioctl.close_pipe sample_env (pos 5) (λ s. record s { fd_ffs_ep_in = minus_one }) up []
      ≡ (next tt, record up { fd_ffs_ep_in = minus_one }, close (pos 5) ∷ flushed))
    × (undone flushed ≡ undone [])
unfolding close_pipe
close_pipe_agrees_example =
    close_pipe_agrees sample_env (pos 5) (λ s. record s { fd_ffs_ep_in = minus_one }) up []
