-- ===== src/Functionfs/Aio/Reads.antt =====
-- The result of `read_host`.
use firmware_x.Prelude.{
  ℕ, ◌-◌, ◌≡◌, refl, sym, ap, ◌∙◌, List, ◌∷◌, Bool, true, false, ◌&&◌, some, arith, length,
  length-append, length-take, length-replicate, take, replicate, if◌then◌else◌,
}
use firmware_x.Prelude.Int.{ℤ, pos, negsuc, is_nonneg, is_nat, eq_ℤ, to_int32}
use firmware_x.System.{
  Iocb, IocbRef, Reply, io_submit, io_getevents, Env, plain, Env-plain, History, then_run,
  to_result, pure, Exit, next, return_false,
}
use firmware_x.Functionfs.{Handler}
use firmware_x.Functionfs.Aio.{
  Reading, to_caller, read_failed, read_arrived, is_pread, wait_time, notify, resize, resize_to,
  overwrite, transfer_offset, check_read, read_host,
}
use firmware_x.Functionfs.Aio.Transfers.{submit_and_wait_lem, eq_ℤ-self}

abbrev pub zeros : List ℕ
zeros = replicate 64 0

abbrev pub read_block : Env → Handler → Iocb
read_block env s = notify s.fd_eventfd (env.aio.prep_pread s.fd_ffs_ep_out zeros transfer_offset)

abbrev pub is_own_read : IocbRef → ℤ → Iocb → Bool
is_own_read IocbRef.iocb_out fd in_block = true
is_own_read IocbRef.iocb_in fd in_block =
    is_pread in_block.aio_lio_opcode && eq_ℤ in_block.aio_fildes fd

-- What `read_host` gives back, by the answers to its two calls: the result, the bytes, and the size.
abbrev pub read_outcome : Reply → Reply → ℤ → Iocb → ℤ → Bool × List ℕ × ℤ
read_outcome submitted waited fd in_block old_res =
    if is_nonneg submitted.ret
    then (if is_nat 1 waited.ret
        then (
          is_own_read waited.obj fd in_block && is_nonneg (to_int32 waited.res),
          resize_to (to_int32 waited.res) (overwrite zeros waited.buffer),
          to_int32 waited.res,
        )
        else (false, resize_to old_res (overwrite zeros waited.buffer), old_res))
    else (false, resize_to old_res zeros, old_res)

finish_read :
    (env : Env) (r1 r2 : Reply) (v f1 f2 : Reading) (h1 h2 : History) (i o : Iocb)
    → v.buffer ≡ zeros
    → v.self.iocb_in ≡ some i
    → v.self.iocb_out ≡ some o
    → is_pread o.aio_lio_opcode ≡ true
    → eq_ℤ o.aio_fildes v.self.fd_ffs_ep_out ≡ true
    → (then_run
        (to_caller (
          to_result (
            then_run
              (if is_nonneg r1.ret
                then (if is_nonneg r2.ret
                    then (next r2, read_arrived r2 v, h2)
                    else (return_false, read_failed r2.errno (read_arrived r2 v), h2))
                else (return_false, read_failed r1.errno v, h1))
              (check_read env v.self.fd_ffs_ep_out))))
        (λ (p : Bool × List ℕ × ℤ).
          pure {S = Handler} {A = Bool × List ℕ × ℤ} (p.0, resize_to p.2 p.1, p.2))).0
      ≡ next (read_outcome r1 r2 v.self.fd_ffs_ep_out i v.aio_event_res)
unfolding check_read
finish_read env r1 r2 v f1 f2 h1 h2 i o hb hi ho own at_fd = ground arith

-- With its pointers set.
abbrev ready : Handler → ℕ → Iocb → Iocb → Handler
ready s c i o = record s { ctx = some c; iocb_in = some i; iocb_out = some o }

module _ (env : Env) (buffer : List ℕ) (old_res : ℤ) (s : Handler) (h : History) (c : ℕ)
    (i o : Iocb) where
  ready_read_host-result :
      let submitted = io_submit c (read_block env s) ∷ h in
      let waited = io_getevents c (wait_time s.aio_timeout_ms) ∷ submitted in
      (read_host (plain env) buffer old_res (ready s c i o) h).0
      ≡ next (read_outcome (env.answer submitted) (env.answer waited) s.fd_ffs_ep_out i old_res)
  unfolding read_host
  ready_read_host-result =
      let block = read_block env s in
      let submitted = io_submit c block ∷ h in
      let waited = io_getevents c (wait_time s.aio_timeout_ms) ∷ submitted in
      let v : Reading = record {
        self = record (ready s c i o) { iocb_out = some block };
        buffer = zeros;
        aio_event_res = old_res;
      } in
      let r1 = env.answer submitted in
      let r2 = env.answer waited in
      rw (submit_and_wait_lem env _ _ c _ s.aio_timeout_ms _ h) (
        finish_read (plain env) r1 r2 v (read_failed r1.errno v)
          (read_failed r2.errno (read_arrived r2 v)) submitted waited i block refl refl refl
          (rw (env.aio.pread_opcode s.fd_ffs_ep_out zeros transfer_offset))
          (rw (
            env.aio.pread_fildes s.fd_ffs_ep_out zeros transfer_offset,
            eq_ℤ-self s.fd_ffs_ep_out,
          )))

-- What `read_host` gives its caller, once the pointers are set, whatever the caller's vector and result
-- variable held. If the submission is refused, or the wait gives no event or more than one, the result
-- is false and the result variable keeps its value, by which the vector is then sized if it is not
-- negative; else the variable has the result of the event, cut to an int32_t, which sizes the vector, and the result is
-- true exactly if that is not negative and the event is of the block just submitted, or of the other
-- block when that is a read from the same descriptor.
pub read_host-result :
    (env : Env) (buffer : List ℕ) (old_res : ℤ) (s : Handler) (h : History) (c : ℕ) (i o : Iocb)
    → s.ctx ≡ some c
    → s.iocb_in ≡ some i
    → s.iocb_out ≡ some o
    → let submitted = io_submit c (read_block env s) ∷ h in
      let waited = io_getevents c (wait_time s.aio_timeout_ms) ∷ submitted in
      (read_host env buffer old_res s h).0
      ≡ next (read_outcome (env.answer submitted) (env.answer waited) s.fd_ffs_ep_out i old_res)
read_host-result env buffer old_res s h c i o hc hi ho =
    ap (λ e. (read_host e buffer old_res s h).0) (Env-plain env)
    ∙ ap (λ t. (read_host (plain env) buffer old_res t h).0)
        (λ k. record s { ctx = hc k; iocb_in = hi k; iocb_out = ho k })
    ∙ ready_read_host-result env buffer old_res s h c i o

length-resize : (n : ℕ) (v : List ℕ) → length (resize n v) ≡ n
unfolding resize
length-resize n v = omega (
  arith,
  length-append (take n v) (replicate (n - length v) 0),
  length-take n v,
  length-replicate {A = ℕ} (n - length v) 0,
)

pub outcome_size :
    (r1 r2 : Reply) (fd : ℤ) (i : Iocb) (old_res res : ℤ) (got : List ℕ)
    → read_outcome r1 r2 fd i old_res ≡ (true, got, res)
    → (res ≡ to_int32 r2.res)
      × (is_nonneg (to_int32 r2.res) ≡ true)
      × (got ≡ resize_to (to_int32 r2.res) (overwrite zeros r2.buffer))
outcome_size r1 r2 fd i old_res res got e = ground arith

sized :
    (res : ℤ) (v got : List ℕ)
    → is_nonneg res ≡ true
    → got ≡ resize_to res v
    → res ≡ pos (length got)
sized (pos n) v got good e = rw (e, length-resize n v)
sized (negsuc n) v got good e = absurd (ground arith)

-- Once the pointers are set, a `read_host` that returns true has as many bytes in the caller's vector as
-- the result variable says.
pub read_host-size :
    (env : Env) (buffer got : List ℕ) (old_res res : ℤ) (s s' : Handler) (h h' : History) (c : ℕ)
    (i o : Iocb)
    → s.ctx ≡ some c
    → s.iocb_in ≡ some i
    → s.iocb_out ≡ some o
    → read_host env buffer old_res s h ≡ (next (true, got, res), s', h')
    → res ≡ pos (length got)
read_host-size env buffer got old_res res s s' h h' c i o hc hi ho e =
    let submitted = io_submit c (read_block env s) ∷ h in
    let waited = io_getevents c (wait_time s.aio_timeout_ms) ∷ submitted in
    let result = read_host-result env buffer old_res s h c i o hc hi ho in
    let outcome : next
          (read_outcome (env.answer submitted) (env.answer waited) s.fd_ffs_ep_out i old_res)
        ≡ next (true, got, res) =
      sym result ∙ ap (λ (q : Exit (Bool × List ℕ × ℤ) × Handler × History). q.0) e in
    let (res_is, good, data_is) =
      outcome_size (env.answer submitted) (env.answer waited) s.fd_ffs_ep_out i old_res res got
        (cc) in
    rw res_is (sized _ _ got good data_is)
