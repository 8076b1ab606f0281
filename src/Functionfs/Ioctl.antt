-- ===== src/Functionfs/Ioctl.antt =====
-- onekey_usb_functionfs.hpp with SOC_SUPPORT_FFS_IOCTL_CALLES set to 1: how ffs_cleanup closes a pipe
-- when ffs_fifo_flush and ffs_close_pipe ask the driver. Mount models the setting of the repository.
pub mod Pipes
use firmware_x.Prelude.{
  ◌≡◌, refl, ℕ, suc, zero, ◌==◌, ◌∷◌, Bool, true, false, arith, if◌then◌else◌, Bool-cases, inl, inr,
  ◌⊎◌,
}
use firmware_x.Prelude.Int.{ℤ, pos, negsuc, is_nonneg, is_pos, is_nat}
use firmware_x.System.{
  ioctl, fifo_status, fifo_flush, clear_halt, close, Reply, History, Env, M, next, return_false,
  pure, ◌>>=◌, ◌>>◌, modify, call, advance, method,
}
use firmware_x.System.Undone.{undone}
use firmware_x.Functionfs.{
  Handler, ErrorMsg, ioctl_failed, Function, ffs_fifo_flush_, ffs_close_pipe_,
}

-- `error_msg = …; return false;`
abbrev pub fail_unless : Bool → Function → ℕ → M Handler (Unit {0})
fail_unless true function errno s h = (next tt, s, h)
fail_unless false function errno s h =
    (return_false, record s { error_msg = ioctl_failed function errno }, h)

module _ (env : Env) where
  -- The answer: the number returned, and `errno`.
  abbrev ffs_check_fifo_available : ℤ → M Handler Reply
  ffs_check_fifo_available ffs_ep = call env (ioctl ffs_ep fifo_status)

  -- Behind the first request, by what it returned, and `errno`.
  unfoldable pub flush_unclaimed : ℤ → ℤ → ℕ → M Handler (Unit {0})
  flush_unclaimed ffs_ep (negsuc n) errno =
      fail_unless (errno == env.uapi.enodev) ffs_fifo_flush_ errno
  flush_unclaimed ffs_ep (pos zero) errno = pure tt
  flush_unclaimed ffs_ep (pos (suc n)) errno = do
    flushed ← call env (ioctl ffs_ep fifo_flush)
    fail_unless (is_nonneg flushed.ret) ffs_fifo_flush_ flushed.errno

  unfoldable pub ffs_fifo_flush : ℤ → M Handler Bool
  ffs_fifo_flush ffs_ep =
      method (do
        status ← ffs_check_fifo_available ffs_ep
        flush_unclaimed ffs_ep status.ret status.errno)

  unfoldable pub ffs_close_pipe : ℤ → M Handler Bool
  ffs_close_pipe ffs_ep = method (do
    cleared ← call env (ioctl ffs_ep clear_halt)
    fail_unless (is_nonneg cleared.ret) ffs_close_pipe_ cleared.errno)

  unfoldable pub close_pipe : ℤ → (Handler → Handler) → M Handler (Unit {0})
  unfolding ffs_fifo_flush ffs_close_pipe
  close_pipe fd forget =
      let closing = do
        flushed ← ffs_fifo_flush fd
        advance env flushed
        halted ← ffs_close_pipe fd
        advance env halted
        closed ← call env (close fd)
        advance env (is_nat 0 closed.ret)
        modify forget
      in if is_pos fd then closing else pure tt
