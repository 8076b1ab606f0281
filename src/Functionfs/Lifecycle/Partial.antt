-- ===== src/Functionfs/Lifecycle/Partial.antt =====
-- What `cleanup` of the handler takes down, however it ends.
use firmware_x.Prelude.{
  ◌≡◌, ◌∙◌, ap, sym, ℕ, List, ◌∷◌, Bool, false, some, ◌⊎◌, inl, inr, Bool-cases, arith,
}
use firmware_x.Prelude.Int.{ℤ, is_pos, is_nat, minus_one}
use firmware_x.System.{
  Call, Env, plain, History, Exit, M, ◌>>=◌, ◌>>◌, advance, umount, io_destroy, close, call, modify,
  gets,
}
use firmware_x.System.Undone.{undone}
use firmware_x.Functionfs.{Handler}
use firmware_x.Functionfs.Mount.{ffs_cleanup, close_pipe, close_ctrl}
use firmware_x.Functionfs.Mount.Cleanup.{closing, ffs_cleanup-true}
use firmware_x.Functionfs.Mount.Returns.{ffs_cleanup-Tame}
use firmware_x.Functionfs.Aio.{aio_cleanup}
use firmware_x.Functionfs.Lifecycle
use firmware_x.System.Suffix.{Suffix, shorter, sequel, and_then-part, to_result-part}

pub undone-closing : (fd : ℤ) (h : History) → undone (closing fd h) ≡ closing fd (undone h)
unfolding undone
undone-closing fd h = ground arith

pub unclosing :
    (fd : ℤ) (h : History) (total : List Call) → Suffix (closing fd h) total → Suffix h total
unclosing fd h total = elim (Bool-cases (is_pos fd)) [
  | inl positive ↦ rw positive (shorter (close fd) h total)
  | inr negative ↦ rw negative (λ s. s)
]

module _ (env : Env) where
  close_pipe-undone :
      (fd : ℤ) (forget : Handler → Handler) (s : Handler) (h : History)
      → let r = close_pipe (plain env) fd forget s h in
        (undone r.2 ≡ closing fd (undone h)) × (r.1 ≡ forget s ⊎ r.1 ≡ s)
  unfolding close_pipe undone
  close_pipe-undone fd forget s h = ground arith

  close_ctrl-undone :
      (fd : ℤ) (forget : Handler → Handler) (s : Handler) (h : History)
      → undone (close_ctrl (plain env) fd forget s h).2 ≡ closing fd (undone h)
  unfolding close_ctrl undone
  close_ctrl-undone fd forget s h = ground arith

  -- The three parts of `ffs_cleanup` behind the first pipe.
  unmounting : M Handler (Unit {0})
  unmounting = do
    unmounted ← call (plain env) umount
    advance (plain env) (is_nat 0 unmounted.ret)
    modify (λ s. record s { ffs_initialized = false })

  closing_ctrl : M Handler (Unit {0})
  closing_ctrl = do
    fd_ctrl ← gets (λ s. s.fd_ffs_ep_crtl)
    close_ctrl (plain env) fd_ctrl (λ s. record s { fd_ffs_ep_crtl = minus_one })
    unmounting

  closing_out : M Handler (Unit {0})
  closing_out = do
    fd_out ← gets (λ s. s.fd_ffs_ep_out)
    close_pipe (plain env) fd_out (λ s. record s { fd_ffs_ep_out = minus_one })
    closing_ctrl

  unmounting-undone : (s : Handler) (h : History) → undone (unmounting s h).2 ≡ umount ∷ undone h
  unfolding unmounting undone
  unmounting-undone s h = ground arith

  -- `total` is the whole list of what is taken down.
  module _ (total : List Call) where
    abbrev Part : History → Type 0
    Part h = Suffix (undone h) total

    unmounting-Part :
        (s : Handler) (h : History) → Suffix (umount ∷ undone h) total → Part (unmounting s h).2
    unmounting-Part s h part = rw (unmounting-undone s h) part

    closing_ctrl-Part :
        (s : Handler) (h : History)
        → Suffix (umount ∷ closing s.fd_ffs_ep_crtl (undone h)) total
        → Part (closing_ctrl s h).2
    unfolding closing_ctrl
    closing_ctrl-Part s h part =
        let fd = s.fd_ffs_ep_crtl in
        let r = close_ctrl (plain env) fd (λ s. record s { fd_ffs_ep_crtl = minus_one }) s h in
        let closed : undone r.2 ≡ closing fd (undone h) = close_ctrl-undone fd _ s h in
        sequel Part unmounting r (rw closed (shorter umount _ total part))
          (unmounting-Part r.1 r.2 (rw closed part))

    closing_out-Part :
        (s : Handler) (h : History)
        → Suffix (umount ∷ closing s.fd_ffs_ep_crtl (closing s.fd_ffs_ep_out (undone h))) total
        → Part (closing_out s h).2
    unfolding closing_out
    closing_out-Part s h part =
        let fd = s.fd_ffs_ep_out in
        let forget = λ (s : Handler). record s { fd_ffs_ep_out = minus_one } in
        let r = close_pipe (plain env) fd forget s h in
        let (closed, state) = close_pipe-undone fd forget s h in
        let ctrl : r.1.fd_ffs_ep_crtl ≡ s.fd_ffs_ep_crtl = ground arith in
        sequel Part closing_ctrl r
          (rw closed (unclosing s.fd_ffs_ep_crtl _ total (shorter umount _ total part)))
          (closing_ctrl-Part r.1 r.2 (rw (ctrl, closed) part))

    ffs_cleanup-Part :
        (s : Handler) (h : History)
        → Suffix
            (umount
              ∷ closing s.fd_ffs_ep_crtl
                  (closing s.fd_ffs_ep_out (closing s.fd_ffs_ep_in (undone h))))
            total
        → Part (ffs_cleanup (plain env) s h).2
    unfolding ffs_cleanup closing_out closing_ctrl unmounting
    ffs_cleanup-Part s h part =
        let fd = s.fd_ffs_ep_in in
        let forget = λ (s : Handler). record s { fd_ffs_ep_in = minus_one } in
        let r = close_pipe (plain env) fd forget s h in
        let (closed, state) = close_pipe-undone fd forget s h in
        let out : r.1.fd_ffs_ep_out ≡ s.fd_ffs_ep_out = ground arith in
        let ctrl : r.1.fd_ffs_ep_crtl ≡ s.fd_ffs_ep_crtl = ground arith in
        to_result-part Part _ (
          sequel Part closing_out r
            (rw closed (
              unclosing s.fd_ffs_ep_out _ total
                (unclosing s.fd_ffs_ep_crtl _ total (shorter umount _ total part))))
            (closing_out-Part r.1 r.2 (rw (out, ctrl, closed) part)))

  aio_cleanup-undone :
      (s : Handler) (h : History) (c : ℕ)
      → s.ctx ≡ some c
      → undone (aio_cleanup (plain env) s h).2 ≡ io_destroy c ∷ undone h
  unfolding aio_cleanup undone
  aio_cleanup-undone s h c e = ground (arith, e)

  pub handler_cleanup-Part :
      (total : List Call) (s : Handler) (h : History) (c : ℕ)
      → s.ctx ≡ some c
      → Suffix
          (io_destroy c
            ∷ umount
            ∷ closing s.fd_ffs_ep_crtl
                (closing s.fd_ffs_ep_out (closing s.fd_ffs_ep_in (undone h))))
          total
      → Suffix (undone (Lifecycle.cleanup (plain env) s h).2) total
  unfolding Lifecycle.cleanup undone
  handler_cleanup-Part total s h c had part =
      let r = ffs_cleanup (plain env) s h in
      let (fine, same) = ffs_cleanup-Tame env s h in
      and_then-part (λ i. Suffix (undone i) total) (aio_cleanup (plain env)) r
        (ffs_cleanup-Part total s h (shorter (io_destroy c) _ total part))
        (λ t i e.
          let (state, calls) = ffs_cleanup-true (plain env) s t h i e in
          let ctx : t.ctx ≡ some c =
            ap (λ (x : Exit Bool × Handler × History). x.1.ctx) (sym e) ∙ same.ctx_same ∙ had in
          rw
            (
              aio_cleanup-undone t i c ctx,
              calls,
              undone-closing s.fd_ffs_ep_crtl (closing s.fd_ffs_ep_out (closing s.fd_ffs_ep_in h)),
              undone-closing s.fd_ffs_ep_out (closing s.fd_ffs_ep_in h),
              undone-closing s.fd_ffs_ep_in h,
            )
            part)
