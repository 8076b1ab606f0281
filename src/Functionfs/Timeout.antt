-- ===== src/Functionfs/Timeout.antt =====
-- The timeout of a transfer, and the wait for the control file and the eventfd.
use firmware_x.Prelude.{◌≡◌, [], ◌∷◌, some, arith, Bool-cases, inl, inr, if◌then◌else◌}
use firmware_x.Prelude.Int.{ℤ, pos, max_ℤ, suc_ℤ, scale}
use firmware_x.System.{select, Env, History, next, undefined}
use firmware_x.Functionfs.{Handler, aio_set_timeout, fits_fd_set, wait_read_management_ready}
use firmware_x.Functionfs.Aio.{wait_time}

-- Every timeout, short or long, or negative for none at all, is replaced by 60 seconds, so that each
-- wait for a transfer is given 60 000 000 000 nanoseconds.
pub aio_set_timeout-constant :
    (timeout : ℤ) (s : Handler)
    → (aio_set_timeout timeout s ≡ record s { aio_timeout_ms = pos 60000 })
      × (wait_time (aio_set_timeout timeout s).aio_timeout_ms ≡ some (pos 60000000000))
unfolding aio_set_timeout
aio_set_timeout-constant timeout s = ground arith

-- The wait for the control file or the eventfd. With both descriptors from 0 to 1023 it makes one call
-- of `select`, on just these two, for the given number of milliseconds, returns its answer, and keeps
-- the set that it leaves; with any other descriptor, such as the -1 before `ffs_init`, it is undefined.
pub wait_management_lem :
    (env : Env) (timeout_ms : ℤ) (s : Handler) (h : History)
    → let waited =
        select
          (suc_ℤ (max_ℤ s.fd_ffs_ep_crtl s.fd_eventfd))
          (s.fd_eventfd ∷ s.fd_ffs_ep_crtl ∷ [])
          (scale timeout_ms 1000)
        ∷ h in
      wait_read_management_ready env timeout_ms s h ≡ (
        if fits_fd_set s.fd_ffs_ep_crtl
        then (if fits_fd_set s.fd_eventfd
            then (
              next (env.answer waited).ret,
              record s { rfds = (env.answer waited).ready },
              waited,
            )
            else (undefined, record s { rfds = s.fd_ffs_ep_crtl ∷ [] }, h))
        else (undefined, record s { rfds = [] }, h))
unfolding wait_read_management_ready
wait_management_lem env timeout_ms s h = elim (Bool-cases (fits_fd_set s.fd_ffs_ep_crtl)) [
  | inr bad_ctrl ↦ rw bad_ctrl
  | inl ctrl ↦ elim (Bool-cases (fits_fd_set s.fd_eventfd)) [
    | inr bad_event ↦ rw (ctrl, bad_event)
    | inl event ↦ rw (ctrl, event)
  ]
]
