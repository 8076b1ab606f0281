-- ===== src/Functionfs/Aio/States.antt =====
-- What a transfer leaves in the handler, and which calls it has made.
use firmware_x.Prelude.{ℕ, ◌≡◌, ap, sym, ◌∙◌, List, ◌∷◌, Bool, arith, if◌then◌else◌}
use firmware_x.Prelude.Int.{ℤ, is_nonneg}
use firmware_x.System.{
  Reply, Iocb, Exit, next, return_false, Env, plain, Env-plain, History, pure, then_run, to_result,
  io_submit, io_getevents,
}
use firmware_x.Functionfs.{Handler, Function, write_host_, read_host_}
use firmware_x.Functionfs.Aio.{
  Reading, to_caller, write_host, read_host, check_write, check_read, aio_failed, wait_time,
  resize_to, read_arrived, read_failed,
}
use firmware_x.Functionfs.Aio.Transfers.{ready, submit_and_wait_lem, no_bytes, write_block}
use firmware_x.Functionfs.Aio.Reads.{read_block, zeros}
use firmware_x.Functionfs.Aio.Pointers.{Pointers}

-- By the answers to the submission and to the wait, if that is made.
abbrev pub by_answers {ℓ} : {A : Type ℓ} → Reply → Reply → A → A → A → A
by_answers r1 r2 good no_wait no_submit =
    if is_nonneg r1.ret then (if is_nonneg r2.ret then good else no_wait) else no_submit

-- The handler `t` with its block set, after the calls.
abbrev pub after_transfer : Function → Reply → Reply → Handler → Handler
after_transfer function r1 r2 t =
    by_answers r1 r2 t (aio_failed function r2.errno t) (aio_failed function r1.errno t)

finish_write_state :
    (env : Env) (r1 r2 : Reply) (t f1 f2 : Handler) (h1 h2 : History) (fd : ℤ)
    → let ended =
        then_run
          (to_result (
            then_run
              (if is_nonneg r1.ret
                then (if is_nonneg r2.ret then (next r2, t, h2) else (return_false, f2, h2))
                else (return_false, f1, h1))
              (check_write env fd)))
          (λ (result : Bool). pure {S = Handler} {A = Bool × List ℕ} (result, no_bytes)) in
      (ended.1 ≡ by_answers r1 r2 t f2 f1) × (ended.2 ≡ by_answers r1 r2 h2 h2 h1)
unfolding check_write
finish_write_state env r1 r2 t f1 f2 h1 h2 fd = ground arith

finish_read_state :
    (env : Env) (r1 r2 : Reply) (v : Reading) (h1 h2 : History) (fd : ℤ)
    → let ended =
        then_run
          (to_caller (
            to_result (
              then_run
                (if is_nonneg r1.ret
                  then (if is_nonneg r2.ret
                      then (next r2, read_arrived r2 v, h2)
                      else (return_false, read_failed r2.errno (read_arrived r2 v), h2))
                  else (return_false, read_failed r1.errno v, h1))
                (check_read env fd))))
          (λ (p : Bool × List ℕ × ℤ).
            pure {S = Handler} {A = Bool × List ℕ × ℤ} (p.0, resize_to p.2 p.1, p.2)) in
      (ended.1 ≡ after_transfer read_host_ r1 r2 v.self) × (ended.2 ≡ by_answers r1 r2 h2 h2 h1)
unfolding check_read
finish_read_state env r1 r2 v h1 h2 fd = ground arith

module _ (env : Env) (buffer : List ℕ) (s : Handler) (h : History) (c : ℕ) (i o : Iocb) where
  abbrev pub submit_write : History
  submit_write = io_submit c (write_block env s buffer) ∷ h

  abbrev pub wait_write : History
  wait_write = io_getevents c (wait_time s.aio_timeout_ms) ∷ submit_write

  ready_write_host-state :
      ((write_host (plain env) buffer (ready s c i o) h).1
        ≡ after_transfer write_host_
            (env.answer submit_write)
            (env.answer wait_write)
            (ready s c (write_block env s buffer) o))
      × ((write_host (plain env) buffer (ready s c i o) h).2
          ≡ by_answers
              (env.answer submit_write)
              (env.answer wait_write)
              wait_write
              wait_write
              submit_write)
  unfolding write_host
  ready_write_host-state =
      let t = ready s c (write_block env s buffer) o in
      rw (submit_and_wait_lem env _ _ c _ s.aio_timeout_ms _ h) (
        finish_write_state (plain env) (env.answer submit_write) (env.answer wait_write) t
          (aio_failed write_host_ (env.answer submit_write).errno t)
          (aio_failed write_host_ (env.answer wait_write).errno t) submit_write wait_write
          s.fd_ffs_ep_in)

module _ (env : Env) (buffer : List ℕ) (old_res : ℤ) (s : Handler) (h : History) (c : ℕ)
    (i o : Iocb) where
  abbrev pub submit_read : History
  submit_read = io_submit c (read_block env s) ∷ h

  abbrev pub wait_read : History
  wait_read = io_getevents c (wait_time s.aio_timeout_ms) ∷ submit_read

  ready_read_host-state :
      ((read_host (plain env) buffer old_res (ready s c i o) h).1
        ≡ after_transfer read_host_
            (env.answer submit_read)
            (env.answer wait_read)
            (ready s c i (read_block env s)))
      × ((read_host (plain env) buffer old_res (ready s c i o) h).2
          ≡ by_answers
              (env.answer submit_read)
              (env.answer wait_read)
              wait_read
              wait_read
              submit_read)
  unfolding read_host
  ready_read_host-state =
      let v : Reading = record {
        self = ready s c i (read_block env s);
        buffer = zeros;
        aio_event_res = old_res;
      } in
      rw (submit_and_wait_lem env _ _ c _ s.aio_timeout_ms _ h) (
        finish_read_state (plain env) (env.answer submit_read) (env.answer wait_read) v submit_read
          wait_read s.fd_ffs_ep_out)

-- The handler that `Pointers` describes, with its pointers written out.
set_ready : (s : Handler) (p : Pointers s) → ready s p.c p.i p.o ≡ s
set_ready s p =
    sym (λ k. record s { ctx = p.has_ctx k; iocb_in = p.has_in k; iocb_out = p.has_out k })

-- Once the pointers are set: a write sets its control block, and makes two calls, or one if that is
-- refused; an error leaves its message.
pub write_host_state :
    (env : Env) (buffer : List ℕ) (s : Handler) (h : History) (p : Pointers s)
    → let submitted = submit_write env buffer s h p.c p.i p.o in
      let waited = wait_write env buffer s h p.c p.i p.o in
      ((write_host env buffer s h).1
        ≡ after_transfer write_host_
            (env.answer submitted)
            (env.answer waited)
            (ready s p.c (write_block env s buffer) p.o))
      × ((write_host env buffer s h).2
          ≡ by_answers (env.answer submitted) (env.answer waited) waited waited submitted)
write_host_state env buffer s h p =
    let (state, calls) = ready_write_host-state env buffer s h p.c p.i p.o in
    let run : write_host env buffer s h ≡ write_host (plain env) buffer (ready s p.c p.i p.o) h =
      ap (λ e. write_host e buffer s h) (Env-plain env)
      ∙ ap (λ t. write_host (plain env) buffer t h) (sym (set_ready s p)) in
    (
      ap (λ (r : Exit (Bool × List ℕ) × Handler × History). r.1) run ∙ state,
      ap (λ (r : Exit (Bool × List ℕ) × Handler × History). r.2) run ∙ calls,
    )

-- Likewise a read.
pub read_host_state :
    (env : Env) (buffer : List ℕ) (old_res : ℤ) (s : Handler) (h : History) (p : Pointers s)
    → let submitted = submit_read env buffer old_res s h p.c p.i p.o in
      let waited = wait_read env buffer old_res s h p.c p.i p.o in
      ((read_host env buffer old_res s h).1
        ≡ after_transfer read_host_
            (env.answer submitted)
            (env.answer waited)
            (ready s p.c p.i (read_block env s)))
      × ((read_host env buffer old_res s h).2
          ≡ by_answers (env.answer submitted) (env.answer waited) waited waited submitted)
read_host_state env buffer old_res s h p =
    let (state, calls) = ready_read_host-state env buffer old_res s h p.c p.i p.o in
    let run : read_host env buffer old_res s h
        ≡ read_host (plain env) buffer old_res (ready s p.c p.i p.o) h =
      ap (λ e. read_host e buffer old_res s h) (Env-plain env)
      ∙ ap (λ t. read_host (plain env) buffer old_res t h) (sym (set_ready s p)) in
    (
      ap (λ (r : Exit (Bool × List ℕ × ℤ) × Handler × History). r.1) run ∙ state,
      ap (λ (r : Exit (Bool × List ℕ × ℤ) × Handler × History). r.2) run ∙ calls,
    )
