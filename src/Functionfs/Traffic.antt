-- ===== src/Functionfs/Traffic.antt =====
-- The transfers that belong to a handler of onekey_usb_functionfs.hpp.
use Prim.Native.Nat.{bit_or}
use firmware_x.Prelude.{◌≡◌, refl, ◌⊎◌, inl, inr, subst, sym, ℕ, List, ◌∷◌, Option, some, All}
use firmware_x.Prelude.Int.{ℤ}
use firmware_x.System.{Call, io_submit, io_getevents, Iocb, pread, pwrite, History, Env}
use firmware_x.System.Traffic.{transfers}
use firmware_x.Functionfs.{Handler}
use firmware_x.Functionfs.Aio.{wait_time, transfer_offset, flag_resfd}
use firmware_x.Functionfs.Aio.Transfers.{write_block}
use firmware_x.Functionfs.Aio.Reads.{read_block}

-- What the transfers of a handler go by.
pub record Pipes : Type 0 where
  pub fd_in : ℤ
  pub fd_out : ℤ
  pub eventfd : ℤ
  pub ctx : Option ℕ
  pub limit : Option ℤ

abbrev pub pipes_of : Handler → Pipes
pipes_of s = record {
  fd_in = s.fd_ffs_ep_in;
  fd_out = s.fd_ffs_ep_out;
  eventfd = s.fd_eventfd;
  ctx = s.ctx;
  limit = wait_time s.aio_timeout_ms;
}

-- A write to the in pipe, or a read from the out pipe, flagged to tell its end to an eventfd, which is
-- the handler's.
abbrev pub IsOwnBlock : Pipes → Iocb → Type 0
IsOwnBlock p b =
    (((b.aio_lio_opcode ≡ pwrite) × (b.aio_fildes ≡ p.fd_in))
      ⊎ ((b.aio_lio_opcode ≡ pread) × (b.aio_fildes ≡ p.fd_out)))
    × ((n : ℕ) × (b.flags ≡ bit_or n flag_resfd))
    × (b.resfd ≡ p.eventfd)

-- A submission of such a block in the handler's context, or a wait in it for the handler's time.
abbrev pub IsOwn : Pipes → Call → Type 0
IsOwn p (io_submit c block) = (p.ctx ≡ some c) × IsOwnBlock p block
IsOwn p (io_getevents c limit) = (p.ctx ≡ some c) × (limit ≡ p.limit)
IsOwn p _ = Unit

abbrev pub AllOwn : Pipes → History → Type 0
AllOwn p h = All (IsOwn p) (transfers h)

pub write_block-IsOwnBlock :
    (env : Env) (s : Handler) (buffer : List ℕ) → IsOwnBlock (pipes_of s) (write_block env s buffer)
write_block-IsOwnBlock env s buffer = (
  inl (
    env.aio.pwrite_opcode s.fd_ffs_ep_in buffer transfer_offset,
    env.aio.pwrite_fildes s.fd_ffs_ep_in buffer transfer_offset,
  ),
  (_, refl),
  refl,
)

pub read_block-IsOwnBlock : (env : Env) (s : Handler) → IsOwnBlock (pipes_of s) (read_block env s)
read_block-IsOwnBlock env s = (
  inr (env.aio.pread_opcode s.fd_ffs_ep_out _ _, env.aio.pread_fildes s.fd_ffs_ep_out _ _),
  (_, refl),
  refl,
)

-- What a transfer adds: a submission, and at most a wait.
module _ (s : Handler) (h h' : History) (c : ℕ) (block : Iocb) where
  abbrev pub Adds : Type 0
  Adds =
      (transfers h' ≡ io_submit c block ∷ transfers h)
      ⊎ (transfers h'
          ≡ io_getevents c (wait_time s.aio_timeout_ms) ∷ io_submit c block ∷ transfers h)

  pub transfer-AllOwn :
      s.ctx ≡ some c
      → IsOwnBlock (pipes_of s) block
      → Adds
      → (p : Pipes) → p ≡ pipes_of s
      → AllOwn p h
      → AllOwn p h'
  transfer-AllOwn has own (inl one) p same =
      subst (λ q. AllOwn q h → AllOwn q h') (sym same) (λ all. rw one ((has, own), all))
  transfer-AllOwn has own (inr two) p same =
      subst (λ q. AllOwn q h → AllOwn q h') (sym same)
        (λ all. rw two ((has, refl), ((has, own), all)))
