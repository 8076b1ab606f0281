-- ===== src/Functionfs.antt =====
-- onekey_usb_functionfs.hpp, class handler: its data members, the events, the waits and the reads of
-- the control file and the eventfd. TEMP_FAILURE_RETRY repeats a call while it is interrupted; the
-- answer to a call under it is that of the last attempt. Members that nothing reads (`ss_descriptors`,
-- `v2_descriptor`, `wfds`) are left out. Times, in a time_t of 64 bits, and descriptors do not overflow.
pub mod Mount
pub mod Aio
pub mod Events
pub mod Timeout
pub mod Lifecycle
pub mod Traffic
pub mod Serving
pub mod Ioctl
pub mod Names
pub mod Sample
mod Examples
use firmware_x.Prelude.{
  ℕ, ◌+◌, ◌*◌, List, [], ◌∷◌, Bool, true, false, ◌&&◌, Option, none, some, ltb, if◌then◌else◌,
}
use firmware_x.Prelude.Int.{ℤ, pos, negsuc, minus_one, is_nonneg, eq_ℤ, lt_ℤ, max_ℤ, suc_ℤ, scale}
use firmware_x.System.{
  FuncDesc, ExtCompatDesc, OsDescHeader, FfsStrings, Iocb, History, select, read, Exit, next,
  return_false, thrown, undefined, Env, M, pure, gets, ◌>>=◌, ◌>>◌, modify, call, advance_or,
  method,
}

-- The message that RAC_ON_FALSE_RW and RAC_ON_FALSE_AIO compose: of a function, and of `errno`.
pub data Function : Type 0 where
  read_ctrl_ read_eventfd_ aio_init_ write_host_ read_host_ : Function
  ffs_fifo_flush_ ffs_close_pipe_ : Function

pub data ErrorMsg : Type 0 where
  empty : ErrorMsg
  failed : Function → ℕ → ErrorMsg
  -- the one of `ffs_fifo_flush` and `ffs_close_pipe`, with "ioctl() " in it
  ioctl_failed : Function → ℕ → ErrorMsg

pub record Handler : Type 0 where
  pub error_msg : ErrorMsg
  pub ffs_initialized : Bool
  pub ffs_binded : Bool
  pub ffs_enabled : Bool
  pub fs_descriptors : FuncDesc
  pub hs_descriptors : FuncDesc
  pub os_desc_compat : ExtCompatDesc
  pub os_desc_header : OsDescHeader
  pub strings : FfsStrings
  pub fd_ffs_ep_crtl : ℤ
  pub fd_ffs_ep_in : ℤ
  pub fd_ffs_ep_out : ℤ
  pub fd_eventfd : ℤ
  -- an `fd_set`, by the descriptors in it
  pub rfds : List ℤ
  pub aio_timeout_ms : ℤ
  pub aio_initialized : Bool
  -- pointers: none before `aio_init`, and for the blocks after `aio_cleanup`
  pub ctx : Option ℕ
  pub iocb_in : Option Iocb
  pub iocb_out : Option Iocb

-- `event->type`
pub data Event : Type 0 where
  bind unbind enable disable setup suspend resume : Event
  unknown : ℕ → Event

unfoldable pub process_control_event : Event → Handler → Handler
process_control_event bind s = record s { ffs_binded = true }
process_control_event unbind s = record s { ffs_binded = false }
process_control_event enable s = record s { ffs_enabled = true }
process_control_event disable s = record s { ffs_enabled = false }
process_control_event setup s = s
process_control_event suspend s = s
process_control_event resume s = s
process_control_event (unknown k) s = s

abbrev pub min_timout_ms : ℕ
min_timout_ms = 60000

-- A bool, as the comparison with a number converts it.
abbrev pub bool_to_int : Bool → ℕ
bool_to_int b = if b then 1 else 0

-- The test is `-1 < timeout < USB_FFS_MIN_TIMOUT_MS`, which is `(-1 < timeout) < …`.
unfoldable pub aio_set_timeout : ℤ → Handler → Handler
aio_set_timeout timeout s =
    if ltb (bool_to_int (lt_ℤ minus_one timeout)) min_timout_ms
    then record s { aio_timeout_ms = pos min_timout_ms }
    else record s { aio_timeout_ms = timeout }

-- FD_SETSIZE of the C library. FD_SET and FD_ISSET are undefined at other descriptors.
abbrev pub fd_setsize : ℕ
fd_setsize = 1024

abbrev pub fits_fd_set : ℤ → Bool
fits_fd_set fd = is_nonneg fd && lt_ℤ fd (pos fd_setsize)

abbrev pub fd_zero : M Handler (Unit {0})
fd_zero = modify (λ s. record s { rfds = [] })

abbrev pub fd_set : ℤ → M Handler (Unit {0})
fd_set fd s h =
    if fits_fd_set fd then (next tt, record s { rfds = fd ∷ s.rfds }, h) else (undefined, s, h)

abbrev pub mem_fd : ℤ → List ℤ → Bool
mem_fd fd [] = false
mem_fd fd (x ∷ xs) = if eq_ℤ fd x then true else mem_fd fd xs

abbrev pub fd_isset : ℤ → M Handler Bool
fd_isset fd s h = if fits_fd_set fd then (next (mem_fd fd s.rfds), s, h) else (undefined, s, h)

module _ (env : Env) where
  -- `select(nfds, &rfds, NULL, NULL, &timeout_select)`
  select_rfds : ℤ → ℤ → M Handler ℤ
  select_rfds nfds timeout_ms = do
    rfds ← gets (λ s. s.rfds)
    r ← call env (select nfds rfds (scale timeout_ms 1000))
    modify (λ s. record s { rfds = r.ready })
    pure r.ret

  unfoldable pub wait_read_management_ready : ℤ → M Handler ℤ
  unfolding select_rfds
  wait_read_management_ready timeout_ms = do
    fd_zero
    ctrl ← gets (λ s. s.fd_ffs_ep_crtl)
    fd_set ctrl
    event ← gets (λ s. s.fd_eventfd)
    fd_set event
    select_rfds (suc_ℤ (max_ℤ ctrl event)) timeout_ms

  unfoldable pub wait_read_ctrl_ready : ℤ → M Handler ℤ
  unfolding select_rfds
  wait_read_ctrl_ready timeout_ms = do
    fd_zero
    ctrl ← gets (λ s. s.fd_ffs_ep_crtl)
    fd_set ctrl
    select_rfds (suc_ℤ ctrl) timeout_ms

  unfoldable pub wait_read_eventfd_ready : ℤ → M Handler ℤ
  unfolding select_rfds
  wait_read_eventfd_ready timeout_ms = do
    fd_zero
    event ← gets (λ s. s.fd_eventfd)
    fd_set event
    select_rfds (suc_ℤ event) timeout_ms

  unfoldable pub is_read_ctrl_ready : M Handler Bool
  is_read_ctrl_ready = do fd_isset (← gets (λ s. s.fd_ffs_ep_crtl))

  unfoldable pub is_read_eventfd_ready : M Handler Bool
  is_read_eventfd_ready = do fd_isset (← gets (λ s. s.fd_eventfd))

  -- A read into the caller's buffer, which holds `buffer` before.
  read_into : Function → ℤ → ℕ → List ℕ → M Handler (Bool × List ℕ)
  read_into function fd len buffer s h =
      let h' = read fd len ∷ h in
      let r = env.answer h' in
      if env.rac.goes_on (is_nonneg r.ret)
      then (next (true, r.bytes), s, h')
      else (next (false, buffer), record s { error_msg = failed function r.errno }, h')

  unfoldable pub read_ctrl : List ℕ → M Handler (Bool × List ℕ)
  unfolding read_into
  read_ctrl buffer = do
    fd ← gets (λ s. s.fd_ffs_ep_crtl)
    read_into read_ctrl_ fd env.uapi.sizeof_event buffer

  unfoldable pub read_eventfd : List ℕ → M Handler (Bool × List ℕ)
  unfolding read_into
  read_eventfd buffer = do fd ← gets (λ s. s.fd_eventfd); read_into read_eventfd_ fd 8 buffer
