-- ===== src/Functionfs/Aio/Pointers.antt =====
-- The pointers of the handler over a write.
use firmware_x.Prelude.{
  ℕ, ◌≡◌, refl, ap, sym, subst, List, [], ◌∷◌, Bool, some, arith, if◌then◌else◌,
}
use firmware_x.Prelude.Int.{ℤ, is_nonneg}
use firmware_x.System.{
  Reply, Iocb, next, return_false, Env, plain, Env-plain, History, pure, then_run, to_result,
  io_submit, io_getevents,
}
use firmware_x.Functionfs.{Handler, write_host_}
use firmware_x.Functionfs.Aio.{write_host, check_write, aio_failed, wait_time}
use firmware_x.Functionfs.Aio.Transfers.{
  ready, submit_and_wait_lem, no_bytes, write_host-result, write_block,
}

pub record Pointers (s : Handler) : Type 0 where
  pub c : ℕ
  pub i : Iocb
  pub o : Iocb
  pub has_ctx : s.ctx ≡ some c
  pub has_in : s.iocb_in ≡ some i
  pub has_out : s.iocb_out ≡ some o

check_write-same :
    (env : Env) (got : Reply) (fd : ℤ) (t : Handler) (h : History)
    → (check_write env fd got t h).1 ≡ t
unfolding check_write
check_write-same env got fd t h = ground arith

-- The pointers of the handler at the end, by the answers to the two calls.
finish_pointers :
    (env : Env) (r1 r2 : Reply) (t f1 f2 : Handler) (h1 h2 : History) (fd : ℤ) (c : ℕ) (i o : Iocb)
    → t ≡ ready t c i o
    → f1 ≡ ready f1 c i o
    → f2 ≡ ready f2 c i o
    → let u =
        (then_run
          (to_result (
            then_run
              (if is_nonneg r1.ret
                then (if is_nonneg r2.ret then (next r2, t, h2) else (return_false, f2, h2))
                else (return_false, f1, h1))
              (check_write env fd)))
          (λ (result : Bool). pure {S = Handler} {A = Bool × List ℕ} (result, no_bytes))).1 in
      u ≡ ready u c i o
unfolding check_write
finish_pointers env r1 r2 t f1 f2 h1 h2 fd c i o ht h1_ h2_ = ground arith

module _ (env : Env) (buffer : List ℕ) (s : Handler) (h : History) (c : ℕ) (i o : Iocb) where
  ready_write_host-pointers :
      (write_host (plain env) buffer (ready s c i o) h).1
      ≡ ready (write_host (plain env) buffer (ready s c i o) h).1 c (write_block env s buffer) o
  unfolding write_host
  ready_write_host-pointers =
      let block = write_block env s buffer in
      let t : Handler = record (ready s c i o) { iocb_in = some block } in
      let submitted = io_submit c block ∷ h in
      let waited = io_getevents c (wait_time s.aio_timeout_ms) ∷ submitted in
      rw (submit_and_wait_lem env _ _ c _ s.aio_timeout_ms _ h) (
        finish_pointers (plain env) (env.answer submitted) (env.answer waited) t
          (aio_failed write_host_ (env.answer submitted).errno t)
          (aio_failed write_host_ (env.answer waited).errno t) submitted waited s.fd_ffs_ep_in c
          block o refl refl refl)

plain-write_host-Pointers :
    (env : Env) (buffer : List ℕ) (s : Handler) (h : History)
    → Pointers s
    → Pointers (write_host (plain env) buffer s h).1
plain-write_host-Pointers env buffer s h p =
    let kept = ready_write_host-pointers env buffer s h p.c p.i p.o in
    let same : s ≡ ready s p.c p.i p.o =
      λ k. record s { ctx = p.has_ctx k; iocb_in = p.has_in k; iocb_out = p.has_out k } in
    let result : Pointers (write_host (plain env) buffer (ready s p.c p.i p.o) h).1 = record {
      c = p.c;
      i = write_block env s buffer;
      o = p.o;
      has_ctx = ap (λ (t : Handler). t.ctx) kept;
      has_in = ap (λ (t : Handler). t.iocb_in) kept;
      has_out = ap (λ (t : Handler). t.iocb_out) kept;
    } in
    subst (λ t. Pointers (write_host (plain env) buffer t h).1) (sym same) result

-- Once the handler's pointers are set, `write_host` returns, and they are set afterwards too.
pub write_host-Pointers :
    (env : Env) (buffer : List ℕ) (s : Handler) (h : History)
    → Pointers s
    → ((r : Bool) × ((write_host env buffer s h).0 ≡ next (r, [])))
      × Pointers (write_host env buffer s h).1
write_host-Pointers env buffer s h p = (
  (_, write_host-result env buffer s h p.c p.i p.o p.has_ctx p.has_in p.has_out),
  (rw (Env-plain env) (plain-write_host-Pointers env buffer s h p)),
)
