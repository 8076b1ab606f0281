-- ===== src/Bootloader/Partial.antt =====
-- What `cleanup` of the bootloader takes down, however it ends.
use firmware_x.Prelude.{◌≡◌, ◌∙◌, ap, sym, subst, ℕ, ◌∷◌, Bool, true, some, arith}
use firmware_x.System.{
  Env, plain, Env-plain, History, Exit, next, M, ◌>>=◌, ◌>>◌, advance, umount, io_destroy,
  usbg_disable_gadget, usbg_rm_gadget,
}
use firmware_x.System.Undone.{undone}
use firmware_x.Functionfs.Mount.Cleanup.{closing}
use firmware_x.Functionfs.Lifecycle
use firmware_x.Functionfs.Lifecycle.Ready.{Closed, handler_cleanup-Closed}
use firmware_x.Configfs
use firmware_x.Configfs.{ConfigfsHandle}
use firmware_x.System.Tidy.{cleaning}
use firmware_x.Configfs.Tidy.{cleanup_lem}
use firmware_x.Bootloader.{Bootloader, cleanup, on_cfs, on_ffs}
use firmware_x.Bootloader.Setup.{with_cfs-next, with_ffs-next}
use firmware_x.Bootloader.Lifetime.{takedown, undone-takedown, disable-true}
use firmware_x.System.Suffix.{
  Suffix, whole, under, some-same, shorter, to_result-part, guarded, last_part,
}
use firmware_x.Functionfs.Lifecycle.Partial.{unclosing, handler_cleanup-Part}

module _ (env : Env) where
  disable-undone :
      (t : ConfigfsHandle) (h : History)
      → undone (Configfs.disable (plain env) t h).2 ≡ usbg_disable_gadget t.g ∷ undone h
  unfolding Configfs.disable undone
  disable-undone t h = ground arith

  -- When the parts before have returned true, the last call completes the list.
  removed-Suffix :
      (b b1 b2 : Bootloader) (h h1 h2 : History) (c : ℕ)
      → b.ffs_h.ctx ≡ some c
      → b1.ffs_h ≡ b.ffs_h
      → b1.cfs_h ≡ b.cfs_h
      → h1 ≡ usbg_disable_gadget b.cfs_h.g ∷ h
      → on_ffs (Lifecycle.cleanup (plain env)) b1 h1 ≡ (next true, b2, h2)
      → Suffix (undone (on_cfs (Configfs.cleanup (plain env)) b2 h2).2) (
          takedown b.cfs_h.g c b.ffs_h.fd_ffs_ep_in b.ffs_h.fd_ffs_ep_out b.ffs_h.fd_ffs_ep_crtl
            (undone h))
  removed-Suffix b b1 b2 h h1 h2 c had same cfs disabled e =
      let (run, b2_is) =
        with_ffs-next b1 b2 h2 true (Lifecycle.cleanup (plain env) b1.ffs_h h1) e in
      let closed =
        subst (λ s. Closed s b2.ffs_h h1 h2) same
          (handler_cleanup-Closed (plain env) b1.ffs_h b2.ffs_h h1 h2 run) in
      let c_is : closed.c ≡ c = some-same (sym closed.had_ctx ∙ had) in
      let (kept, removed) = cleanup_lem (plain env) b2.cfs_h h2 in
      let s = b.ffs_h in
      let cfs2 : b2.cfs_h ≡ b.cfs_h = ap (λ (x : Bootloader). x.cfs_h) b2_is ∙ cfs in
      let calls =
        undone-takedown b.cfs_h.g b.cfs_h.s closed.c s.fd_ffs_ep_in s.fd_ffs_ep_out s.fd_ffs_ep_crtl
          h h1 h2 (on_cfs (Configfs.cleanup (plain env)) b2 h2).2 disabled closed.calls
          (removed ∙ ap (λ (t : ConfigfsHandle). cleaning t.s (usbg_rm_gadget t.g ∷ h2)) cfs2) in
      rw (calls, c_is) whole

  plain-cleanup-Suffix :
      (b : Bootloader) (h : History) (c : ℕ)
      → b.ffs_h.ctx ≡ some c
      → Suffix (undone (cleanup (plain env) b h).2) (
          takedown b.cfs_h.g c b.ffs_h.fd_ffs_ep_in b.ffs_h.fd_ffs_ep_out b.ffs_h.fd_ffs_ep_crtl
            (undone h))
  unfolding cleanup
  plain-cleanup-Suffix b h c had =
      let e = plain env in
      let g = b.cfs_h.g in
      let s = b.ffs_h in
      let total = takedown g c s.fd_ffs_ep_in s.fd_ffs_ep_out s.fd_ffs_ep_crtl (undone h) in
      let Kept : History → Type 0 = λ i. Suffix (undone i) total in
      let removing : M Bootloader (Unit {0}) = on_cfs (Configfs.cleanup e) >>= advance e in
      let unmounting : M Bootloader (Unit {0}) =
        on_ffs (Lifecycle.cleanup e) >>= λ r. advance e r >> removing in
      let disabled = Configfs.disable e b.cfs_h h in
      let calls : undone disabled.2 ≡ usbg_disable_gadget g ∷ undone h = disable-undone b.cfs_h h in
      let whole_part : Suffix
          (io_destroy c
            ∷ umount
            ∷ closing s.fd_ffs_ep_crtl (
                closing s.fd_ffs_ep_out
                  (closing s.fd_ffs_ep_in (usbg_disable_gadget g ∷ undone h))))
          total =
        under (usbg_rm_gadget g) _ whole in
      let first : Kept disabled.2 = rw calls (
        unclosing s.fd_ffs_ep_in _ total (
          unclosing s.fd_ffs_ep_out _ total (
            unclosing s.fd_ffs_ep_crtl _ total
              (shorter umount _ total (shorter (io_destroy c) _ total whole_part))))) in
      to_result-part Kept _ (
        guarded env Kept unmounting (on_cfs (Configfs.disable e) b h) first (λ b1 h1 e1.
          let (run, b1_is) = with_cfs-next b b1 h1 true disabled e1 in
          let ffs1 : b1.ffs_h ≡ s = ap (λ (x : Bootloader). x.ffs_h) b1_is in
          let (cfs, disabled1) = disable-true env b.cfs_h b1.cfs_h h h1 run in
          let calls1 : undone h1 ≡ usbg_disable_gadget g ∷ undone h =
            ap (λ (x : Exit Bool × ConfigfsHandle × History). undone x.2) (sym run) ∙ calls in
          let handler : Kept (Lifecycle.cleanup e b1.ffs_h h1).2 =
            rw ffs1 (handler_cleanup-Part env total s h1 c had (rw calls1 whole_part)) in
          guarded env Kept removing (on_ffs (Lifecycle.cleanup e) b1 h1) handler (λ b2 h2 e2.
            last_part env Kept (on_cfs (Configfs.cleanup e) b2 h2)
              (removed-Suffix b b1 b2 h h1 h2 c had ffs1 cfs disabled1 e2))))

-- However `cleanup` of the bootloader ends, from one whose handler has its context, what it has taken
-- down is the first part, or all, of this list, in this order and each once: the gadget disabled, the
-- two pipes and the control file closed, those with positive descriptors, the file system unmounted,
-- the context destroyed, and the gadget removed.
pub cleanup-Suffix :
    (env : Env) (b : Bootloader) (h : History) (c : ℕ)
    → b.ffs_h.ctx ≡ some c
    → Suffix (undone (cleanup env b h).2) (
        takedown b.cfs_h.g c b.ffs_h.fd_ffs_ep_in b.ffs_h.fd_ffs_ep_out b.ffs_h.fd_ffs_ep_crtl
          (undone h))
cleanup-Suffix env = rw (Env-plain env) (plain-cleanup-Suffix env)
