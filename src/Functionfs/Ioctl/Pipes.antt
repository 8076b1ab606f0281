-- ===== src/Functionfs/Ioctl/Pipes.antt =====
-- What closing a pipe does on a driver that has the ioctl calls.
use firmware_x.Prelude.{
  ◌≡◌, refl, ap, sym, ◌∙◌, ◌==◌, ◌∷◌, Bool, true, false, ◌&&◌, Bool-cases, inl, inr, arith,
  if◌then◌else◌,
}
use firmware_x.Prelude.Int.{ℤ, is_nonneg, is_pos}
use firmware_x.System.{
  ioctl, fifo_status, fifo_flush, clear_halt, History, Env, Env-plain, plain, Exit, next,
  return_false,
}
use firmware_x.System.Undone.{undone}
use firmware_x.Functionfs.{Handler, ioctl_failed, Function, ffs_fifo_flush_, ffs_close_pipe_}
use firmware_x.Functionfs.Mount
use firmware_x.Functionfs.Ioctl.{flush_unclaimed, ffs_fifo_flush, ffs_close_pipe, close_pipe}

module _ (env : Env) (fd : ℤ) (h : History) where
  -- The calls when the bytes left in the pipe have been asked for, and thrown away if there are any.
  abbrev pub flushing : History
  flushing =
      let status = ioctl fd fifo_status ∷ h in
      if is_pos (env.answer status).ret then ioctl fd fifo_flush ∷ status else status

  -- The last answer to these is no error, or only that the host is not there.
  abbrev pub is_empty : Bool
  is_empty =
      let status = env.answer (ioctl fd fifo_status ∷ h) in
      let last = env.answer flushing in
      if is_nonneg last.ret
      then true
      else (if is_pos status.ret then false else last.errno == env.uapi.enodev)

  -- All requests that are made.
  abbrev pub asking : History
  asking = if is_empty then ioctl fd clear_halt ∷ flushing else flushing

  abbrev pub is_granted : Bool
  is_granted = is_empty && is_nonneg (env.answer asking).ret

  abbrev pub refusing : Function
  refusing = if is_empty then ffs_close_pipe_ else ffs_fifo_flush_

module _ (env : Env) (fd : ℤ) (s : Handler) (h : History) where
  flush_lem : ffs_fifo_flush (plain env) fd s h ≡ (
    next (is_empty env fd h),
    if is_empty env fd h then s else record s {
      error_msg = ioctl_failed ffs_fifo_flush_ (env.answer (flushing env fd h)).errno;
    },
    flushing env fd h,
  )
  unfolding ffs_fifo_flush flush_unclaimed
  flush_lem = ground arith

  halt_lem :
      let i = ioctl fd clear_halt ∷ h in
      let granted = is_nonneg (env.answer i).ret in
      ffs_close_pipe (plain env) fd s h ≡ (
        next granted,
        if granted
            then s
            else record s { error_msg = ioctl_failed ffs_close_pipe_ (env.answer i).errno },
        i,
      )
  unfolding ffs_close_pipe
  halt_lem = ground arith

-- How closing a pipe ends.
module _ (env : Env) (fd : ℤ) (forget : Handler → Handler) (s : Handler) (h : History) where
  abbrev refused : Handler
  refused = record s {
    error_msg = ioctl_failed (refusing env fd h) (env.answer (asking env fd h)).errno;
  }

  abbrev pub pipe_end : Exit (Unit {0}) × Handler × History
  pipe_end =
      if is_pos fd
      then (if is_granted env fd h
          then Mount.close_pipe env fd forget s (asking env fd h)
          else (return_false, refused, asking env fd h))
      else (next tt, s, h)

module _ (env : Env) (fd : ℤ) (h : History) where
  undone-asking : undone (asking env fd h) ≡ undone h
  unfolding undone
  undone-asking = ground arith

module _ (env : Env) (fd : ℤ) (forget : Handler → Handler) (s : Handler) (h : History) where
  plain-close_pipe : close_pipe (plain env) fd forget s h ≡ pipe_end (plain env) fd forget s h
  unfolding close_pipe Mount.close_pipe
  plain-close_pipe = elim (Bool-cases (is_pos fd)) [
    | inr closed ↦ rw closed refl
    | inl opened ↦ elim (Bool-cases (is_empty env fd h)) [
      | inr full ↦ rw (opened, flush_lem env fd s h, full) refl
      | inl empty ↦
          elim (Bool-cases (is_nonneg (env.answer (ioctl fd clear_halt ∷ flushing env fd h)).ret)) [
            | inr stuck ↦
                rw
                  (
                    opened,
                    flush_lem env fd s h,
                    empty,
                    halt_lem env fd s (flushing env fd h),
                    stuck,
                  )
                  refl
            | inl halted ↦
                rw
                  (
                    opened,
                    flush_lem env fd s h,
                    empty,
                    halt_lem env fd s (flushing env fd h),
                    halted,
                  )
                  refl
          ]
    ]
  ]

-- Closing a pipe on a driver that has the ioctl calls, however the driver answers. With a positive
-- descriptor, it is asked for the bytes left in the pipe, and to throw them away if there are any; if
-- that last request is granted, or the first one fails because the host is not there, it is then asked
-- to clear a halt; and if this is granted too, the closing ends as without these calls, from the history
-- with just these requests. Else the handler has the function's message with the error of the last
-- request, is else as before, and false is returned. With another descriptor nothing is done. The
-- requests take nothing down.
pub close_pipe_agrees :
    (env : Env) (fd : ℤ) (forget : Handler → Handler) (s : Handler) (h : History)
    → (close_pipe env fd forget s h ≡ pipe_end env fd forget s h)
      × (undone (asking env fd h) ≡ undone h)
close_pipe_agrees env fd forget s h = (
  ap (λ e. close_pipe e fd forget s h) (Env-plain env)
      ∙ plain-close_pipe env fd forget s h
      ∙ ap (λ e. pipe_end e fd forget s h) (sym (Env-plain env)),
  undone-asking env fd h,
)
