-- ===== src/Bootloader/Service/Safe.antt =====
-- When a round of the service ends neither by an exception nor in undefined behaviour.
use firmware_x.Prelude.{◌≡◌, ◌≤◌, ◌∙◌, refl, ap, ℕ, zero, suc, List, Bool, true, false, length}
use firmware_x.Prelude.Int.{ℤ, pos, negsuc, minus_one}
use firmware_x.System.{History, Exit, next, Env, plain, Env-plain, pure}
use firmware_x.System.Fine.{is_next, is_next_lem, then_run-is_next}
use firmware_x.Functionfs.{
  process_control_event, wait_read_management_ready, is_read_ctrl_ready, is_read_eventfd_ready,
  read_ctrl, read_eventfd,
}
use firmware_x.Functionfs.Aio.{read_host}
use firmware_x.Functionfs.Aio.Pointers.{Pointers}
use firmware_x.Functionfs.Serving.{
  event-Serving, wait-Serving, ctrl_ready-Serving, eventfd_ready-Serving, read_ctrl-Serving,
  read_eventfd-Serving, read_host-Serving,
}
use firmware_x.Bootloader.{Bootloader, on_ffs}
use firmware_x.Bootloader.Service.{
  Generated, Locals, Round, again, respond, answer_host, pull_host, pull_event, check_event,
  process_control, pull_control, after_wait, round,
}
use firmware_x.Bootloader.Service.Attend.{on_ffs-Attending}
use firmware_x.Bootloader.Service.Ready.{respond_returns}
use firmware_x.Bootloader.Service.Outside.{
  Selectable, WholePackets, Served-Selectable, Safe, seq-Safe, wait-Safe, ctrl_ready-Safe,
  eventfd_ready-Safe, read_ctrl-Safe, read_eventfd-Safe, read-fine, read-whole,
}

module _ (env : Env) (generated : Generated) (whole : WholePackets (plain env) generated) where
  answer-Safe :
      (x : Bool) (l : Locals) (b : Bootloader) (h : History)
      → Pointers b.ffs_h
      → (x ≡ true → 9 ≤ length l.buf_read_host)
      → is_next (answer_host (plain env) generated x l b h).0 ≡ true
  unfolding answer_host
  answer-Safe true l b h p long =
      let r = respond (plain env) generated l.buf_read_host b h in
      let returns =
        respond_returns (plain env) generated l.buf_read_host h b p (long refl) whole.enough
          whole.fits in
      then_run-is_next (λ (u : Unit {0}). pure {S = Bootloader} {A = Round × Locals} (again, l)) r
        (ap (λ (x : Exit (Unit {0})). is_next x) returns) (λ u e. refl)
  answer-Safe false l b h p long = refl

  pull_host-Safe : (x : Bool) (l : Locals) → Safe (pull_host (plain env) generated x l)
  unfolding pull_host
  pull_host-Safe true l b h ok =
      let e = plain env in
      let s = b.ffs_h in
      let r = on_ffs (read_host e l.buf_read_host minus_one) b h in
      let served = read_host-Serving env l.buf_read_host minus_one s h ok.pointers in
      then_run-is_next
        (λ (a : Bool × List ℕ × ℤ).
          answer_host e generated a.0 (record l { buf_read_host = a.1; res = a.2 }))
        r (read-fine e generated whole l.buf_read_host s h ok.pointers)
        (λ a returned.
          answer-Safe a.0 (record l { buf_read_host = a.1; res = a.2 }) r.1 r.2 served.pointers
            (λ t.
              read-whole e generated whole l.buf_read_host s h ok.pointers a.1 a.2
                (returned ∙ λ k. next (t k, a.1, a.2))))
  pull_host-Safe false l b h ok = refl

  pull_event-Safe : (x : Bool) (l : Locals) → Safe (pull_event (plain env) generated x l)
  unfolding pull_event
  pull_event-Safe true l =
      let m = read_eventfd (plain env) l.eventfd_result in
      seq-Safe (on_ffs m)
        (λ (r : Bool × List ℕ).
          pull_host (plain env) generated r.0 (record l { eventfd_result = r.1 }))
        (λ b h ok. read_eventfd-Safe env l.eventfd_result b.ffs_h h)
        (on_ffs-Attending m (read_eventfd-Serving env l.eventfd_result))
        (λ r. pull_host-Safe r.0 (record l { eventfd_result = r.1 }))
  pull_event-Safe false l = λ b h ok. refl

  check_event-Safe : (x : Bool) (l : Locals) → Safe (check_event (plain env) generated x l)
  unfolding check_event
  check_event-Safe true l =
      let m = is_read_eventfd_ready (plain env) in
      seq-Safe (on_ffs m) (λ (ready : Bool). pull_event (plain env) generated ready l)
        (λ b h ok. eventfd_ready-Safe env b.ffs_h h ok)
        (on_ffs-Attending m (eventfd_ready-Serving env)) (λ ready. pull_event-Safe ready l)
  check_event-Safe false l = λ b h ok. refl

  process_control-Safe : (x : Bool) (l : Locals) → Safe (process_control (plain env) generated x l)
  unfolding process_control
  process_control-Safe true l b h ok =
      let s = process_control_event (generated.event_type l.buf_ctrl) b.ffs_h in
      let served = event-Serving (generated.event_type l.buf_ctrl) b.ffs_h h ok.pointers in
      check_event-Safe s.ffs_enabled l (record b { ffs_h = s }) h
        (Served-Selectable b.ffs_h s h h served ok)
  process_control-Safe false l b h ok = refl

  pull_control-Safe : (x : Bool) (l : Locals) → Safe (pull_control (plain env) generated x l)
  unfolding pull_control
  pull_control-Safe true l =
      let m = read_ctrl (plain env) l.buf_ctrl in
      seq-Safe (on_ffs m)
        (λ (r : Bool × List ℕ).
          process_control (plain env) generated r.0 (record l { buf_ctrl = r.1 }))
        (λ b h ok. read_ctrl-Safe env l.buf_ctrl b.ffs_h h)
        (on_ffs-Attending m (read_ctrl-Serving env l.buf_ctrl))
        (λ r. process_control-Safe r.0 (record l { buf_ctrl = r.1 }))
  pull_control-Safe false l = λ b h ok. check_event-Safe b.ffs_h.ffs_enabled l b h ok

  after_wait-Safe : (r : ℤ) (l : Locals) → Safe (after_wait (plain env) generated r l)
  unfolding after_wait
  after_wait-Safe (pos zero) l = λ b h ok. refl
  after_wait-Safe (pos (suc n)) l =
      let m = is_read_ctrl_ready (plain env) in
      seq-Safe (on_ffs m) (λ (ready : Bool). pull_control (plain env) generated ready l)
        (λ b h ok. ctrl_ready-Safe env b.ffs_h h ok) (on_ffs-Attending m (ctrl_ready-Serving env))
        (λ ready. pull_control-Safe ready l)
  after_wait-Safe (negsuc n) l = λ b h ok. refl

  plain-round-Safe : (l : Locals) → Safe (round (plain env) generated l)
  unfolding round
  plain-round-Safe l b h =
      let m = wait_read_management_ready (plain env) b.usb_timeout_ms in
      seq-Safe (on_ffs m) (λ (r : ℤ). after_wait (plain env) generated r l)
        (λ b h ok. wait-Safe env _ b.ffs_h h ok)
        (on_ffs-Attending m (wait-Serving env b.usb_timeout_ms)) (λ r. after_wait-Safe r l) b h

-- A round returns: it throws nothing, goes past the end of no vector, follows no null pointer, and
-- gives no descriptor outside it to an `fd_set`. The loads of the id and the size in the parser, which
-- C++ leaves undefined, are taken as the target makes them. The bootloader's handler has its pointers
-- set and its control file and eventfd from 0 to 1023; every transfer fails or has the 9 bytes of a
-- header or more, and the features have from 55 to 2 ^ 32 - 1 bytes. The outside answers anything else.
pub round_returns :
    (env : Env) (generated : Generated) (l : Locals) (b : Bootloader) (h : History)
    → WholePackets env generated
    → Selectable b.ffs_h
    → (r : Round) × (l' : Locals) × (t : Bootloader) × (k : History) × (round env generated l b h
        ≡ (next (r, l'), t, k))
round_returns env generated l b h whole ok =
    let plainly : WholePackets env generated → is_next (round env generated l b h).0 ≡ true =
      rw (Env-plain env)
        (λ (w : WholePackets (plain env) generated). plain-round-Safe env generated w l b h ok) in
    let safe = plainly whole in
    let (a, e) = is_next_lem (round env generated l b h).0 safe in
    let run = round env generated l b h in (a.0, a.1, run.1, run.2, λ k. (e k, run.1, run.2))
