-- ===== src/Functionfs/Aio/Transfers.antt =====
-- The results of `write_host` and `read_host`.
use firmware_x.Prelude.{
  ℕ, ◌≡◌, refl, ap, ◌∙◌, List, [], ◌∷◌, Bool, true, ◌&&◌, some, arith, if◌then◌else◌,
}
use firmware_x.Prelude.Int.{ℤ, pos, negsuc, is_nonneg, is_nat, eq_ℤ}
use firmware_x.System.{
  Iocb, IocbRef, Reply, io_submit, io_getevents, Env, plain, Env-plain, History, method, then_run,
  to_result, pure, next, return_false,
}
use firmware_x.Functionfs.{Handler, write_host_}
use firmware_x.Functionfs.Aio.{
  aio_failed, is_pwrite, wait_time, notify, transfer_offset, submit_and_wait, check_write,
  write_host,
}

-- The two calls of a transfer.
abbrev pub write_block : Env → Handler → List ℕ → Iocb
write_block env s buffer =
    notify s.fd_eventfd (env.aio.prep_pwrite s.fd_ffs_ep_in buffer transfer_offset)

-- Whether the block of an event is that of the write just submitted, or a block like it.
abbrev pub is_own_write : IocbRef → ℤ → Iocb → Bool
is_own_write IocbRef.iocb_in fd out_block = true
is_own_write IocbRef.iocb_out fd out_block =
    is_pwrite out_block.aio_lio_opcode && eq_ℤ out_block.aio_fildes fd

abbrev pub no_bytes : List ℕ
no_bytes = []

pub eq_ℤ-self : (x : ℤ) → eq_ℤ x x ≡ true
eq_ℤ-self (pos n) = ground arith
eq_ℤ-self (negsuc n) = ground arith

-- The result of the checks after the wait.
check_write-result :
    (env : Env) (got : Reply) (t : Handler) (h : History) (i o : Iocb)
    → t.iocb_in ≡ some i
    → t.iocb_out ≡ some o
    → is_pwrite i.aio_lio_opcode ≡ true
    → eq_ℤ i.aio_fildes t.fd_ffs_ep_in ≡ true
    → method (check_write env t.fd_ffs_ep_in got) t h
      ≡ (next (is_nat 1 got.ret && is_own_write got.obj t.fd_ffs_ep_in o), t, h)
unfolding check_write
check_write-result env got t h i o hi ho own at_fd = ground arith

-- What a submission and its wait do, and how they end.
module _ {S : Type 0} (env : Env) (fail : ℕ → S → S) (arrive : Reply → S → S) where
  pub submit_and_wait_lem :
      (c : ℕ) (block : Iocb) (timeout_ms : ℤ) (s : S) (h : History)
      → let h1 = io_submit c block ∷ h in
        let h2 = io_getevents c (wait_time timeout_ms) ∷ h1 in
        let got = env.answer h2 in
        submit_and_wait (plain env) fail arrive c block timeout_ms s h ≡ (
          if is_nonneg (env.answer h1).ret
          then (if is_nonneg got.ret
              then (next got, arrive got s, h2)
              else (return_false, fail got.errno (arrive got s), h2))
          else (return_false, fail (env.answer h1).errno s, h1))
  unfolding submit_and_wait
  submit_and_wait_lem c block timeout_ms s h = ground arith

-- The result of a write, by the answers to its two calls.
finish_write :
    (env : Env) (r1 r2 : Reply) (t f1 f2 : Handler) (h1 h2 : History) (i o : Iocb)
    → t.iocb_in ≡ some i
    → t.iocb_out ≡ some o
    → is_pwrite i.aio_lio_opcode ≡ true
    → eq_ℤ i.aio_fildes t.fd_ffs_ep_in ≡ true
    → (then_run
        (to_result (
          then_run
            (if is_nonneg r1.ret
              then (if is_nonneg r2.ret then (next r2, t, h2) else (return_false, f2, h2))
              else (return_false, f1, h1))
            (check_write env t.fd_ffs_ep_in)))
        (λ (result : Bool). pure {S = Handler} {A = Bool × List ℕ} (result, no_bytes))).0
      ≡ next (is_nonneg r1.ret && is_nat 1 r2.ret && is_own_write r2.obj t.fd_ffs_ep_in o, no_bytes)
unfolding check_write
finish_write env r1 r2 t f1 f2 h1 h2 i o hi ho own at_fd = ground arith

-- With its pointers set.
abbrev pub ready : Handler → ℕ → Iocb → Iocb → Handler
ready s c i o = record s { ctx = some c; iocb_in = some i; iocb_out = some o }

module _ (env : Env) (buffer : List ℕ) (s : Handler) (h : History) (c : ℕ) (i o : Iocb) where
  abbrev submit_history : History
  submit_history = io_submit c (write_block env s buffer) ∷ h

  abbrev wait_history : History
  wait_history = io_getevents c (wait_time s.aio_timeout_ms) ∷ submit_history

  ready_write_host-result :
      (write_host (plain env) buffer (ready s c i o) h).0
      ≡ next (
        is_nonneg (env.answer submit_history).ret
            && is_nat 1 (env.answer wait_history).ret
            && is_own_write (env.answer wait_history).obj s.fd_ffs_ep_in o,
        [],
      )
  unfolding write_host
  ready_write_host-result =
      let block = write_block env s buffer in
      let t : Handler = record (ready s c i o) { iocb_in = some block } in
      rw (submit_and_wait_lem env _ _ c _ s.aio_timeout_ms _ h) (
        finish_write (plain env) (env.answer submit_history) (env.answer wait_history) t
          (aio_failed write_host_ (env.answer submit_history).errno t)
          (aio_failed write_host_ (env.answer wait_history).errno t) submit_history wait_history
          block o refl refl (rw (env.aio.pwrite_opcode s.fd_ffs_ep_in buffer transfer_offset))
          (rw (
            env.aio.pwrite_fildes s.fd_ffs_ep_in buffer transfer_offset,
            eq_ℤ-self s.fd_ffs_ep_in,
          )))

-- The result of `write_host`, once the pointers are set. The block is submitted with the eventfd to
-- notify; if that is accepted, one event is waited for. The result is true exactly if the submission
-- is accepted, the wait gives one event, and the event is of the block just submitted, or of the other
-- block when that is a write to the same descriptor. The caller's vector is empty afterwards, on
-- failure too.
pub write_host-result :
    (env : Env) (buffer : List ℕ) (s : Handler) (h : History) (c : ℕ) (i o : Iocb)
    → s.ctx ≡ some c
    → s.iocb_in ≡ some i
    → s.iocb_out ≡ some o
    → let submitted = io_submit c (write_block env s buffer) ∷ h in
      let waited = io_getevents c (wait_time s.aio_timeout_ms) ∷ submitted in
      (write_host env buffer s h).0
      ≡ next (
        is_nonneg (env.answer submitted).ret
            && is_nat 1 (env.answer waited).ret
            && is_own_write (env.answer waited).obj s.fd_ffs_ep_in o,
        no_bytes,
      )
write_host-result env buffer s h c i o hc hi ho =
    ap (λ e. (write_host e buffer s h).0) (Env-plain env)
    ∙ ap (λ t. (write_host (plain env) buffer t h).0)
        (λ k. record s { ctx = hc k; iocb_in = hi k; iocb_out = ho k })
    ∙ ready_write_host-result env buffer s h c i o
