-- ===== src/Bootloader/Lifetime.antt =====
-- What `cleanup` of the bootloader takes down when it returns true.
use firmware_x.Prelude.{◌≡◌, ◌∙◌, refl, ap, sym, subst, ℕ, List, ◌∷◌, Bool, true, some, arith}
use firmware_x.Prelude.Int.{ℤ}
use firmware_x.System.{
  Call, Pointer, Env, plain, Env-plain, History, Exit, next, M, ◌>>=◌, ◌>>◌, advance, method-true,
  required-next, required-last, umount, io_destroy, usbg_disable_gadget, usbg_rm_gadget,
}
use firmware_x.System.Undone.{undone}
use firmware_x.Functionfs.Mount.Cleanup.{closing}
use firmware_x.Functionfs.Lifecycle
use firmware_x.Functionfs.Lifecycle.Ready.{Closed, handler_cleanup-Closed}
use firmware_x.Configfs
use firmware_x.Configfs.{ConfigfsHandle}
use firmware_x.System.Tidy.{cleaning}
use firmware_x.Configfs.Tidy.{cleanup_lem}
use firmware_x.Bootloader.{Bootloader, cleanup, on_cfs, on_ffs}
use firmware_x.Functionfs.Lifecycle.Partial.{undone-closing}
use firmware_x.Bootloader.Setup.{with_cfs-next, with_ffs-next}

pub disable-true :
    (env : Env) (t t' : ConfigfsHandle) (h h' : History)
    → Configfs.disable (plain env) t h ≡ (next true, t', h')
    → (t' ≡ t) × (h' ≡ usbg_disable_gadget t.g ∷ h)
unfolding Configfs.disable
disable-true env t t' h h' e = ground arith

-- A successful `cleanup`: `h1` are the calls when the gadget was disabled, and `h2` when the handler was
-- taken down.
pub record Ended (b b' : Bootloader) (h h' : History) : Type 0 where
  pub h1 : History
  pub h2 : History
  pub disabled : h1 ≡ usbg_disable_gadget b.cfs_h.g ∷ h
  pub closed : Closed b.ffs_h b'.ffs_h h1 h2
  pub removed : h' ≡ cleaning b.cfs_h.s (usbg_rm_gadget b.cfs_h.g ∷ h2)
  pub gadget : b'.cfs_h ≡ b.cfs_h

plain-cleanup-Ended :
    (env : Env) (b b' : Bootloader) (h h' : History)
    → cleanup (plain env) b h ≡ (next true, b', h')
    → Ended b b' h h'
unfolding cleanup
plain-cleanup-Ended env b b' h h' e =
    let e' = plain env in
    let removing : M Bootloader (Unit {0}) = on_cfs (Configfs.cleanup e') >>= advance e' in
    let unmounting : M Bootloader (Unit {0}) =
      on_ffs (Lifecycle.cleanup e') >>= λ r. advance e' r >> removing in
    let disabling : M Bootloader (Unit {0}) =
      on_cfs (Configfs.disable e') >>= λ r. advance e' r >> unmounting in
    let (b1, h1, d_true, e1) =
      required-next env (on_cfs (Configfs.disable e')) unmounting b' h' b h
        (method-true b' h' disabling b h e) in
    let (b2, h2, m_true, e2) =
      required-next env (on_ffs (Lifecycle.cleanup e')) removing b' h' b1 h1 e1 in
    let e3 = required-last env b' h' (on_cfs (Configfs.cleanup e')) b2 h2 e2 in
    let (d_run, b1_is) = with_cfs-next b b1 h1 true (Configfs.disable e' b.cfs_h h) d_true in
    let (m_run, b2_is) = with_ffs-next b1 b2 h2 true (Lifecycle.cleanup e' b1.ffs_h h1) m_true in
    let (r_run, b'_is) = with_cfs-next b2 b' h' true (Configfs.cleanup e' b2.cfs_h h2) e3 in
    let (same, disabled) = disable-true env b.cfs_h b1.cfs_h h h1 d_run in
    let closed = handler_cleanup-Closed e' b1.ffs_h b2.ffs_h h1 h2 m_run in
    let (same3, removed) = cleanup_lem e' b2.cfs_h h2 in
    let cfs2 : b2.cfs_h ≡ b.cfs_h = ap (λ (x : Bootloader). x.cfs_h) b2_is ∙ same in
    let ffs1 : b1.ffs_h ≡ b.ffs_h = ap (λ (x : Bootloader). x.ffs_h) b1_is in
    let ffs : b2.ffs_h ≡ b'.ffs_h = sym (ap (λ (x : Bootloader). x.ffs_h) b'_is) in
    let calls : (Configfs.cleanup e' b2.cfs_h h2).2 ≡ h' =
      ap (λ (x : Exit Bool × ConfigfsHandle × History). x.2) r_run in
    let cfs' : (Configfs.cleanup e' b2.cfs_h h2).1 ≡ b'.cfs_h =
      ap (λ (x : Exit Bool × ConfigfsHandle × History). x.1) r_run in
    record {
      h1 = h1;
      h2 = h2;
      disabled = disabled;
      closed =
          subst (λ s. Closed s b'.ffs_h h1 h2) ffs1
            (subst (λ s. Closed b1.ffs_h s h1 h2) ffs closed);
      removed =
          sym calls
          ∙ removed
          ∙ ap (λ (t : ConfigfsHandle). cleaning t.s (usbg_rm_gadget t.g ∷ h2)) cfs2;
      gadget = sym cfs' ∙ same3 ∙ cfs2;
    }

cleanup-Ended :
    (env : Env) (b b' : Bootloader) (h h' : History)
    → cleanup env b h ≡ (next true, b', h')
    → Ended b b' h h'
cleanup-Ended env = rw (Env-plain env) (plain-cleanup-Ended env)

pub undone-cleaning : (s : Pointer) (h : History) → undone (cleaning s h) ≡ undone h
unfolding undone
undone-cleaning s h = ground arith

-- The calls of a whole take-down: of the gadget, the context, and the descriptors of the two pipes and
-- the control file.
abbrev pub takedown : Pointer → ℕ → ℤ → ℤ → ℤ → List Call → List Call
takedown g c i o k h =
    usbg_rm_gadget g
    ∷ io_destroy c
    ∷ umount
    ∷ closing k (closing o (closing i (usbg_disable_gadget g ∷ h)))

pub undone-takedown :
    (g s : Pointer) (c : ℕ) (i o k : ℤ) (h h1 h2 h' : History)
    → h1 ≡ usbg_disable_gadget g ∷ h
    → h2 ≡ io_destroy c ∷ umount ∷ closing k (closing o (closing i h1))
    → h' ≡ cleaning s (usbg_rm_gadget g ∷ h2)
    → undone h' ≡ takedown g c i o k (undone h)
unfolding undone
undone-takedown g s c i o k h h1 h2 h' disabled closed removed =
    rw
      (
        removed,
        undone-cleaning s (usbg_rm_gadget g ∷ h2),
        closed,
        undone-closing k (closing o (closing i h1)),
        undone-closing o (closing i h1),
        undone-closing i h1,
        disabled,
      )
      refl

-- When `cleanup` of the bootloader returns true, it has disabled the gadget, closed the two pipes and
-- the control file, those with positive descriptors, unmounted the file system, destroyed the context
-- and removed the gadget, each once and in this order, and taken nothing else down.
pub cleanup_takes_down :
    (env : Env) (b b' : Bootloader) (h h' : History)
    → cleanup env b h ≡ (next true, b', h')
    → (c : ℕ) × (b.ffs_h.ctx ≡ some c)
      × (undone h'
          ≡ takedown b.cfs_h.g c b.ffs_h.fd_ffs_ep_in b.ffs_h.fd_ffs_ep_out b.ffs_h.fd_ffs_ep_crtl
              (undone h))
cleanup_takes_down env b b' h h' e =
    let m = cleanup-Ended env b b' h h' e in
    (
      m.closed.c,
      m.closed.had_ctx,
      undone-takedown b.cfs_h.g b.cfs_h.s m.closed.c b.ffs_h.fd_ffs_ep_in b.ffs_h.fd_ffs_ep_out
          b.ffs_h.fd_ffs_ep_crtl h m.h1 m.h2 h' m.disabled m.closed.calls m.removed,
    )
