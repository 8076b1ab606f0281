-- ===== src/Functionfs/Aio.antt =====
-- onekey_usb_functionfs.hpp: the transfers to and from the host through libaio. A transfer is submitted
-- and then waited for. A vector is the list of its bytes.
pub mod Transfers
pub mod Reads
pub mod Pointers
pub mod States
use Prim.Native.Nat.{bit_or}
use firmware_x.Prelude.{
  ℕ, ◌-◌, List, [], ◌∷◌, ◌++◌, Bool, true, false, ◌&&◌, Option, none, some, length, take, drop,
  replicate, if◌then◌else◌,
}
use firmware_x.Prelude.Int.{ℤ, pos, negsuc, is_nonneg, is_pos, is_nat, eq_ℤ, scale, to_int32}
use firmware_x.System.{
  Iocb, Opcode, pread, pwrite, other, IocbRef, Reply, io_setup, io_destroy, io_submit, io_getevents,
  Exit, next, return_false, thrown, undefined, then_run, History, Env, M, pure, gets, dereference,
  ◌>>=◌, ◌>>◌, modify, call, advance_or, return_false_unless, method,
}
use firmware_x.Functionfs.{Handler, Function, aio_init_, write_host_, read_host_, failed}

abbrev pub max_transfer_size : ℕ
max_transfer_size = 64

-- IOCB_FLAG_RESFD
abbrev pub flag_resfd : ℕ
flag_resfd = 1

abbrev pub transfer_offset : ℕ
transfer_offset = 0

abbrev pub is_pwrite : Opcode → Bool
is_pwrite pwrite = true
is_pwrite pread = false
is_pwrite other = false

abbrev pub is_pread : Opcode → Bool
is_pread pread = true
is_pread pwrite = false
is_pread other = false

-- `aio_event.obj`, one of the two blocks.
abbrev pub pointee : IocbRef → Handler → Option Iocb
pointee IocbRef.iocb_in s = s.iocb_in
pointee IocbRef.iocb_out s = s.iocb_out

-- `(aio_timeout_ms > 0) ? &timeout_io_getevents : NULL`
abbrev pub wait_time : ℤ → Option ℤ
wait_time timeout_ms = if is_pos timeout_ms then some (scale timeout_ms 1000000) else none

-- `flags |= IOCB_FLAG_RESFD` and `resfd = fd_eventfd`
abbrev pub notify : ℤ → Iocb → Iocb
notify fd_eventfd block = record block { flags = bit_or block.flags flag_resfd; resfd = fd_eventfd }

-- `v.resize(n)`
unfoldable pub resize : ℕ → List ℕ → List ℕ
resize n v = take n v ++ replicate (n - length v) 0

-- `buffer.resize(aio_event_res)`, if that is not negative
abbrev pub resize_to : ℤ → List ℕ → List ℕ
resize_to (pos n) v = resize n v
resize_to (negsuc n) v = v

-- The bytes that the kernel has written stand over the first of the buffer, and never behind it.
unfoldable pub overwrite : List ℕ → List ℕ → List ℕ
overwrite buffer written = take (length buffer) (written ++ drop (length written) buffer)

-- The variables of `read_host`: the object, and what its caller passes by reference.
pub record Reading : Type 0 where
  pub self : Handler
  pub buffer : List ℕ
  pub aio_event_res : ℤ

abbrev pub to_caller : Exit Bool × Reading × History → Exit (Bool × List ℕ × ℤ) × Handler × History
to_caller (next b, v, h) = (next (b, v.buffer, v.aio_event_res), v.self, h)
to_caller (return_false, v, h) = (return_false, v.self, h)
to_caller (thrown, v, h) = (thrown, v.self, h)
to_caller (undefined, v, h) = (undefined, v.self, h)

-- "submit" and "wait and receive", which are the same in both transfers: `arrive` is what the wait does
-- to the caller's variables, and `fail` is RAC_ON_FALSE_AIO.
module _ {S : Type 0} (env : Env) (fail : ℕ → S → S) (arrive : Reply → S → S) where
  unfoldable pub submit_and_wait : ℕ → Iocb → ℤ → M S Reply
  submit_and_wait ctx block timeout_ms = do
    submitted ← call env (io_submit ctx block)
    advance_or env (is_nonneg submitted.ret) (fail submitted.errno)
    got ← call env (io_getevents ctx (wait_time timeout_ms))
    modify (arrive got)
    advance_or env (is_nonneg got.ret) (fail got.errno)
    pure got

-- RAC_ON_FALSE_AIO in a function of the handler.
abbrev pub aio_failed : Function → ℕ → Handler → Handler
aio_failed function errno s = record s { error_msg = failed function errno }

abbrev pub read_failed : ℕ → Reading → Reading
read_failed errno v = record v { self = aio_failed read_host_ errno v.self }

abbrev pub read_arrived : Reply → Reading → Reading
read_arrived got v = record v { buffer = overwrite v.buffer got.buffer }

module _ (env : Env) where
  unfoldable pub aio_init : M Handler Bool
  aio_init = method (do
    modify
        (λ s. record s { ctx = some 0; iocb_in = some env.new_iocb; iocb_out = some env.new_iocb })
    r ← call env io_setup
    advance_or env (is_nonneg r.ret) (aio_failed aio_init_ r.errno)
    modify (λ s. record s { ctx = some r.ctx; aio_initialized = true }))

  -- `ctx` itself is not deleted.
  unfoldable pub aio_cleanup : M Handler Bool
  aio_cleanup = method (do
    pointer ← gets (λ s. s.ctx)
    ctx ← dereference pointer
    destroyed ← call env (io_destroy ctx)
    block_in ← gets (λ s. s.iocb_in)
    deleted_in ← dereference block_in
    modify (λ s. record s { iocb_in = none })
    block_out ← gets (λ s. s.iocb_out)
    deleted_out ← dereference block_out
    modify (λ s. record s { iocb_out = none; aio_initialized = false }))

  -- "check result"
  unfoldable pub check_write : ℤ → Reply → M Handler (Unit {0})
  check_write fd got = do
    return_false_unless (is_nat 1 got.ret)
    target ← gets (pointee got.obj)
    obj ← dereference target
    return_false_unless (is_pwrite obj.aio_lio_opcode && eq_ℤ obj.aio_fildes fd)

  unfoldable pub write_host_body : List ℕ → M Handler (Unit {0})
  write_host_body buffer = do
    pointer ← gets (λ s. s.iocb_in)
    old ← dereference pointer
    fd ← gets (λ s. s.fd_ffs_ep_in)
    event ← gets (λ s. s.fd_eventfd)
    let block = notify event (env.aio.prep_pwrite fd buffer transfer_offset)
    modify (λ s. record s { iocb_in = some block })
    ctx_pointer ← gets (λ s. s.ctx)
    ctx ← dereference ctx_pointer
    timeout ← gets (λ s. s.aio_timeout_ms)
    got ← submit_and_wait env (aio_failed write_host_) (λ _ s. s) ctx block timeout
    check_write fd got

  -- The overload on a vector clears it.
  unfoldable pub write_host : List ℕ → M Handler (Bool × List ℕ)
  unfolding write_host_body
  write_host buffer = do result ← method (write_host_body buffer); pure (result, [])

  unfoldable pub check_read : ℤ → Reply → M Reading (Unit {0})
  check_read fd got = do
    return_false_unless (is_nat 1 got.ret)
    let res = to_int32 got.res
    modify (λ v. record v { aio_event_res = res })
    target ← gets (λ v. pointee got.obj v.self)
    obj ← dereference target
    return_false_unless (is_pread obj.aio_lio_opcode && eq_ℤ obj.aio_fildes fd && is_nonneg res)

  unfoldable pub read_host_body : M Reading (Unit {0})
  read_host_body = do
    v ← gets (λ v. v)
    old ← dereference v.self.iocb_out
    let fd = v.self.fd_ffs_ep_out
    let block = notify v.self.fd_eventfd (env.aio.prep_pread fd v.buffer transfer_offset)
    modify (λ v. record v { self = record (v.self) { iocb_out = some block } })
    ctx ← dereference v.self.ctx
    got ← submit_and_wait env read_failed read_arrived ctx block v.self.aio_timeout_ms
    check_read fd got

  -- The overload on a vector: 64 zero bytes to read into, and the size that was read.
  unfoldable pub read_host : List ℕ → ℤ → M Handler (Bool × List ℕ × ℤ)
  unfolding read_host_body
  read_host buffer aio_event_res s h =
      then_run
        (to_caller (
          method read_host_body
            (record {
              self = s;
              buffer = replicate max_transfer_size 0;
              aio_event_res = aio_event_res;
            })
            h))
        (λ (p : Bool × List ℕ × ℤ). pure (p.0, resize_to p.2 p.1, p.2))
