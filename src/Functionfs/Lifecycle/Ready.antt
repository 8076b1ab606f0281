-- ===== src/Functionfs/Lifecycle/Ready.antt =====
-- What `init` of the handler gives to the transfers, and what `cleanup` leaves.
use firmware_x.Prelude.{
  ℕ, ◌≡◌, ap, List, [], ◌∷◌, Bool, true, false, none, some, arith, if◌then◌else◌,
}
use firmware_x.Prelude.Int.{ℤ}
use firmware_x.System.{
  Env, plain, Env-plain, History, next, io_setup, io_destroy, umount, >>=-next, M, pure,
}
use firmware_x.Functionfs.{Handler}
use firmware_x.Functionfs.Mount.{ffs_init, ffs_cleanup}
use firmware_x.Functionfs.Mount.Init.{Mounted, ffs_init-true}
use firmware_x.Functionfs.Mount.Cleanup.{closing, forgotten, ffs_cleanup-true}
use firmware_x.Functionfs.Aio.{aio_init, aio_cleanup, write_host, read_host}
use firmware_x.Functionfs.Aio.Transfers.{write_host-result}
use firmware_x.Functionfs.Aio.Reads.{read_host-result}
use firmware_x.Functionfs.Lifecycle.{init, cleanup, and_then, is_initialized}

aio_init-true :
    (env : Env) (s s' : Handler) (h h' : History)
    → aio_init (plain env) s h ≡ (next true, s', h')
    → (s' ≡ record s {
      ctx = some ((env.answer h').ctx);
      iocb_in = some env.new_iocb;
      iocb_out = some env.new_iocb;
      aio_initialized = true;
    })
      × (h' ≡ io_setup ∷ h)
unfolding aio_init
aio_init-true env s s' h h' e = ground arith

-- After a successful `init`: `m` and `i` are the handler and the calls when the mounting was done.
pub record Ready (env : Env) (s s' : Handler) (h h' : History) : Type 0 where
  pub m : Handler
  pub i : History
  pub mounted : Mounted env s m h i
  pub handler : s' ≡ record m {
    ctx = some ((env.answer h').ctx);
    iocb_in = some env.new_iocb;
    iocb_out = some env.new_iocb;
    aio_initialized = true;
  }
  pub calls : h' ≡ io_setup ∷ i

-- Both parts of `a() && b()` that is true.
module _ (a b : M Handler Bool) (s s' : Handler) (h h' : History) where
  abbrev Both : Handler → History → Type 0
  Both t i = (a s h ≡ (next true, t, i)) × (b t i ≡ (next true, s', h'))

  first_was_true :
      (first : Bool) (t : Handler) (i : History)
      → a s h ≡ (next first, t, i)
      → (if first then b else pure false) t i ≡ (next true, s', h')
      → Both t i
  first_was_true true t i ea eb = (ea, eb)
  first_was_true false t i ea eb = absurd (ground arith)

  and_then-true : and_then a b s h ≡ (next true, s', h') → (t : Handler) × (i : History) × Both t i
  and_then-true e =
      let (first, t, i, ea, eb) =
        >>=-next (λ (first : Bool). if first then b else pure false) s' h' true a s h e in
      (t, i, first_was_true first t i ea eb)

plain-init-Ready :
    (env : Env) (s s' : Handler) (h h' : History)
    → init (plain env) s h ≡ (next true, s', h')
    → (is_initialized s' ≡ true) × Ready (plain env) s s' h h'
unfolding init
plain-init-Ready env s s' h h' e =
    let (m, i, (up, started)) =
      and_then-true (ffs_init (plain env)) (aio_init (plain env)) s s' h h' e in
    let (handler, calls) = aio_init-true env m s' i h' started in
    let mounted = ffs_init-true (plain env) s m h i up in
    (
      ground (arith, handler, mounted.initialized),
      record { m = m; i = i; mounted = mounted; handler = handler; calls = calls },
    )

-- When `init` returns true, from any state and whatever the outside answers, the handler counts as
-- initialised: all of `ffs_init` was done, and after it one `io_setup`, whose context the handler has,
-- with two new control blocks.
pub handler_init-Ready :
    (env : Env) (s s' : Handler) (h h' : History)
    → init env s h ≡ (next true, s', h')
    → (is_initialized s' ≡ true) × Ready env s s' h h'
handler_init-Ready env = rw (Env-plain env) (plain-init-Ready env)

-- After `init` has returned true no transfer is undefined, whatever calls were made in between that
-- left the handler as it is: `write_host` and `read_host` return.
pub transfer_after_init :
    (env : Env) (s s' : Handler) (h h' k : History) (buffer : List ℕ) (res : ℤ)
    → init env s h ≡ (next true, s', h')
    → ((b : Bool) × ((write_host env buffer s' k).0 ≡ next (b, [])))
      × ((r : Bool × List ℕ × ℤ) × ((read_host env buffer res s' k).0 ≡ next r))
transfer_after_init env s s' h h' k buffer res e =
    let (up, ready) = handler_init-Ready env s s' h h' e in
    let c = (env.answer h').ctx in
    let has_ctx : s'.ctx ≡ some c = ap (λ (t : Handler). t.ctx) ready.handler in
    let has_in : s'.iocb_in ≡ some env.new_iocb = ap (λ (t : Handler). t.iocb_in) ready.handler in
    let has_out : s'.iocb_out ≡ some env.new_iocb =
      ap (λ (t : Handler). t.iocb_out) ready.handler in
    (
      (_, write_host-result env buffer s' k c env.new_iocb env.new_iocb has_ctx has_in has_out),
      (_, read_host-result env buffer res s' k c env.new_iocb env.new_iocb has_ctx has_in has_out),
    )

aio_cleanup-true :
    (env : Env) (s s' : Handler) (h h' : History)
    → aio_cleanup (plain env) s h ≡ (next true, s', h')
    → (s' ≡ record s { iocb_in = none; iocb_out = none; aio_initialized = false })
      × ((c : ℕ) × (s.ctx ≡ some c) × (h' ≡ io_destroy c ∷ h))
unfolding aio_cleanup
aio_cleanup-true env s s' h h' e = ground arith

-- A successful `cleanup`.
pub record Closed (s s' : Handler) (h h' : History) : Type 0 where
  pub handler : s' ≡ record s {
    fd_ffs_ep_in = forgotten s.fd_ffs_ep_in;
    fd_ffs_ep_out = forgotten s.fd_ffs_ep_out;
    fd_ffs_ep_crtl = forgotten s.fd_ffs_ep_crtl;
    ffs_initialized = false;
    iocb_in = none;
    iocb_out = none;
    aio_initialized = false;
  }
  pub c : ℕ
  pub had_ctx : s.ctx ≡ some c
  pub calls :
      h'
      ≡ io_destroy c
        ∷ umount
        ∷ closing s.fd_ffs_ep_crtl (closing s.fd_ffs_ep_out (closing s.fd_ffs_ep_in h))

plain-cleanup-Closed :
    (env : Env) (s s' : Handler) (h h' : History)
    → cleanup (plain env) s h ≡ (next true, s', h')
    → Closed s s' h h'
unfolding cleanup
plain-cleanup-Closed env s s' h h' e =
    let (m, i, (down, ended)) =
      and_then-true (ffs_cleanup (plain env)) (aio_cleanup (plain env)) s s' h h' e in
    let (m_is, i_is) = ffs_cleanup-true (plain env) s m h i down in
    let (s'_is, (c, had, h'_is)) = aio_cleanup-true env m s' i h' ended in
    record {
      handler = ground (arith, m_is, s'_is);
      c = c;
      had_ctx = ground (arith, m_is, had);
      calls = ground (arith, i_is, h'_is);
    }

-- When `cleanup` returns true, the pipes and the control file with positive descriptors were closed,
-- the file system was unmounted, and then the context destroyed, which the handler must have had; it
-- counts as uninitialised. It still has the eventfd, and the context that is gone.
pub handler_cleanup-Closed :
    (env : Env) (s s' : Handler) (h h' : History)
    → cleanup env s h ≡ (next true, s', h')
    → Closed s s' h h'
handler_cleanup-Closed env = rw (Env-plain env) (plain-cleanup-Closed env)
