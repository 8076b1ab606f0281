-- ===== src/Bootloader/Service/Short.antt =====
-- What a short packet of the host does to a round.
use firmware_x.Prelude.{◌≡◌, ap, ℕ, List, ◌<◌, Bool, true, length, arith}
use firmware_x.Prelude.Int.{ℤ, minus_one}
use firmware_x.System.{Env, Env-plain, plain, History, Exit, next, return_false, thrown, then_run}
use firmware_x.System.Monad
use firmware_x.Functionfs.{Handler}
use firmware_x.Functionfs.Aio.{read_host}
use firmware_x.Bootloader.{Bootloader, with_ffs}
use firmware_x.Bootloader.Service.{Generated, Locals, Round, answer_host, pull_host}
use firmware_x.Bootloader.Service.Respond.{short_packet_undefined}

module _ (env : Env) (generated : Generated) where
  short_answer :
      (l : Locals) (b : Bootloader) (h : History)
      → length l.buf_read_host < 3
      → answer_host env generated true l b h ≡ (Monad.undefined, b, h)
  unfolding answer_host
  short_answer l b h short = rw (short_packet_undefined env generated l.buf_read_host b h short)

  short_read :
      (l : Locals) (b : Bootloader) (got : List ℕ) (res : ℤ)
      (r : Exit (Bool × List ℕ × ℤ) × Handler × History)
      → r.0 ≡ next (true, got, res)
      → length got < 3
      → (then_run (with_ffs b r) (λ (x : Bool × List ℕ × ℤ).
          answer_host env generated x.0 (record l { buf_read_host = x.1; res = x.2 }))).0
        ≡ Monad.undefined
  short_read l b got res (next (x, v, n), s, h) e short =
      let bytes : v ≡ got = ground arith in
      let good : x ≡ true = ground arith in
      let few : length v < 3 = rw bytes short in
      let t = record b { ffs_h = s } in
      rw good (
        ap (λ (y : Exit (Round × Locals) × Bootloader × History). y.0)
          (short_answer (record l { buf_read_host = v; res = n }) t h few))
  short_read l b got res (return_false, s, h) e short = absurd (ground arith)
  short_read l b got res (thrown, s, h) e short = absurd (ground arith)
  short_read l b got res (Monad.undefined, s, h) e short = absurd (ground arith)

plain-pull_host-short :
    (env : Env) (generated : Generated) (l : Locals) (b : Bootloader) (h : History) (got : List ℕ)
    (res : ℤ)
    → (read_host (plain env) l.buf_read_host minus_one b.ffs_h h).0 ≡ next (true, got, res)
    → length got < 3
    → (pull_host (plain env) generated true l b h).0 ≡ Monad.undefined
unfolding pull_host
plain-pull_host-short env generated l b h got res e short =
    short_read (plain env) generated l b got res
      (read_host (plain env) l.buf_read_host minus_one b.ffs_h h) e short

-- When a round has come to its read from the host, and that gives fewer than three bytes, as many as
-- the host has sent, the rest of the round is undefined behaviour: the parser compares three.
pub short_read_undefined :
    (env : Env) (generated : Generated) (l : Locals) (b : Bootloader) (h : History) (got : List ℕ)
    (res : ℤ)
    → (read_host env l.buf_read_host minus_one b.ffs_h h).0 ≡ next (true, got, res)
    → length got < 3
    → (pull_host env generated true l b h).0 ≡ Monad.undefined
short_read_undefined env = rw (Env-plain env) (plain-pull_host-short env)
