-- ===== src/Bootloader/Service/Kept.antt =====
-- What a round of the service keeps, however it ends.
use firmware_x.Prelude.{refl, ℕ, zero, suc, List, Bool, true, false}
use firmware_x.Prelude.Int.{ℤ, pos, negsuc, minus_one}
use firmware_x.System.{History, Env, plain, Env-plain, Keeps, ◌>>=◌, pure, gets, modify}
use firmware_x.Functionfs.{
  process_control_event, wait_read_management_ready, is_read_ctrl_ready, is_read_eventfd_ready,
  read_ctrl, read_eventfd,
}
use firmware_x.Functionfs.Aio.{read_host}
use firmware_x.Functionfs.Aio.Pointers.{Pointers}
use firmware_x.Functionfs.Serving.{
  event-Serving, wait-Serving, ctrl_ready-Serving, eventfd_ready-Serving, read_ctrl-Serving,
  read_eventfd-Serving, read_host-Serving,
}
use firmware_x.Bootloader.{Bootloader, on_ffs}
use firmware_x.Bootloader.Service.Attend.{
  Attended, Attending, Attending-Preorder, seq, on_ffs-Attending, ends, respond-Attending,
}
use firmware_x.Bootloader.Service.{
  Generated, Locals, Round, again, leave, quit, respond, answer_host, pull_host, pull_event,
  check_event, process_control, pull_control, after_wait, round,
}

module _ (env : Env) (generated : Generated) where
  answer-Attending :
      (b : Bool) (l : Locals) → Keeps Attending (answer_host (plain env) generated b l)
  unfolding answer_host
  answer-Attending true l =
      seq (respond (plain env) generated l.buf_read_host)
        (λ (u : Unit {0}). pure {S = Bootloader} {A = Round × Locals} (again, l))
        (respond-Attending env generated l.buf_read_host) (λ u. ends again l)
  answer-Attending false l = ends again l

  pull_host-Attending :
      (b : Bool) (l : Locals) → Keeps Attending (pull_host (plain env) generated b l)
  unfolding pull_host
  pull_host-Attending true l =
      let m = read_host (plain env) l.buf_read_host minus_one in
      seq (on_ffs m)
        (λ (r : Bool × List ℕ × ℤ).
          answer_host (plain env) generated r.0 (record l { buf_read_host = r.1; res = r.2 }))
        (on_ffs-Attending m (read_host-Serving env l.buf_read_host minus_one))
        (λ r. answer-Attending r.0 (record l { buf_read_host = r.1; res = r.2 }))
  pull_host-Attending false l = ends quit l

  pull_event-Attending :
      (b : Bool) (l : Locals) → Keeps Attending (pull_event (plain env) generated b l)
  unfolding pull_event
  pull_event-Attending true l =
      let m = read_eventfd (plain env) l.eventfd_result in
      seq (on_ffs m)
        (λ (r : Bool × List ℕ).
          pull_host (plain env) generated r.0 (record l { eventfd_result = r.1 }))
        (on_ffs-Attending m (read_eventfd-Serving env l.eventfd_result))
        (λ r. pull_host-Attending r.0 (record l { eventfd_result = r.1 }))
  pull_event-Attending false l = ends again l

  check_event-Attending :
      (b : Bool) (l : Locals) → Keeps Attending (check_event (plain env) generated b l)
  unfolding check_event
  check_event-Attending true l =
      seq (on_ffs (is_read_eventfd_ready (plain env)))
        (λ (ready : Bool). pull_event (plain env) generated ready l)
        (on_ffs-Attending (is_read_eventfd_ready (plain env)) (eventfd_ready-Serving env))
        (λ ready. pull_event-Attending ready l)
  check_event-Attending false l = ends again l

  enabled-Attending :
      (l : Locals)
      → Keeps Attending (
          gets (λ (b : Bootloader). b.ffs_h.ffs_enabled) >>= λ (enabled : Bool).
          check_event (plain env) generated enabled l)
  enabled-Attending l =
      seq (gets (λ (b : Bootloader). b.ffs_h.ffs_enabled))
        (λ (enabled : Bool). check_event (plain env) generated enabled l)
        Attending-Preorder.reflexive (λ enabled. check_event-Attending enabled l)

  event-Attending :
      (l : Locals)
      → Keeps Attending (
          modify (λ (b : Bootloader). record b {
            ffs_h = process_control_event (generated.event_type l.buf_ctrl) b.ffs_h;
          }))
  event-Attending l b h p = record {
    handler = event-Serving (generated.event_type l.buf_ctrl) b.ffs_h h p;
    gadget = refl;
    timeout = refl;
  }

  process_control-Attending :
      (b : Bool) (l : Locals) → Keeps Attending (process_control (plain env) generated b l)
  unfolding process_control
  process_control-Attending true l =
      seq
        (modify (λ (b : Bootloader). record b {
          ffs_h = process_control_event (generated.event_type l.buf_ctrl) b.ffs_h;
        }))
        (λ (u : Unit {0}). gets (λ (b : Bootloader). b.ffs_h.ffs_enabled) >>= λ (enabled : Bool).
          check_event (plain env) generated enabled l)
        (event-Attending l) (λ u. enabled-Attending l)
  process_control-Attending false l = ends leave l

  pull_control-Attending :
      (b : Bool) (l : Locals) → Keeps Attending (pull_control (plain env) generated b l)
  unfolding pull_control
  pull_control-Attending true l =
      let m = read_ctrl (plain env) l.buf_ctrl in
      seq (on_ffs m)
        (λ (r : Bool × List ℕ).
          process_control (plain env) generated r.0 (record l { buf_ctrl = r.1 }))
        (on_ffs-Attending m (read_ctrl-Serving env l.buf_ctrl))
        (λ r. process_control-Attending r.0 (record l { buf_ctrl = r.1 }))
  pull_control-Attending false l = enabled-Attending l

  after_wait-Attending :
      (r : ℤ) (l : Locals) → Keeps Attending (after_wait (plain env) generated r l)
  unfolding after_wait
  after_wait-Attending (pos zero) l = ends again l
  after_wait-Attending (pos (suc n)) l =
      seq (on_ffs (is_read_ctrl_ready (plain env)))
        (λ (ready : Bool). pull_control (plain env) generated ready l)
        (on_ffs-Attending (is_read_ctrl_ready (plain env)) (ctrl_ready-Serving env))
        (λ ready. pull_control-Attending ready l)
  after_wait-Attending (negsuc n) l = ends leave l

  plain-round-Attending : (l : Locals) → Keeps Attending (round (plain env) generated l)
  unfolding round
  plain-round-Attending l =
      let e = plain env in
      let waiting = λ (t : ℤ). on_ffs (wait_read_management_ready e t) in
      let rest = λ (r : ℤ). after_wait e generated r l in
      let waits : (t : ℤ) → Keeps Attending (waiting t >>= rest) = λ t.
        seq (waiting t) rest
          (on_ffs-Attending (wait_read_management_ready e t) (wait-Serving env t))
          (λ r. after_wait-Attending r l) in
      seq (gets (λ (b : Bootloader). b.usb_timeout_ms)) (λ (t : ℤ). waiting t >>= rest)
        Attending-Preorder.reflexive waits

-- However a round ends, from a bootloader whose handler has its pointers set: the handler has them set
-- again, it has the same descriptors, context and marks of initialisation as before, the gadget and
-- the timeout are the same, and no call has taken anything down.
pub round-Attending :
    (env : Env) (generated : Generated) (l : Locals) (b : Bootloader) (h : History)
    → Pointers b.ffs_h
    → Attended b h (round env generated l b h).1 (round env generated l b h).2
round-Attending env generated l b h = rw (Env-plain env) (plain-round-Attending env generated l b h)
