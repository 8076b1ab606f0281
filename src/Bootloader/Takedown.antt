-- ===== src/Bootloader/Takedown.antt =====
-- `cleanup` of the bootloader: that it returns, and what it has taken down.
use firmware_x.Prelude.{◌≡◌, ◌∙◌, refl, Bool, true, false, arith, if◌then◌else◌}
use firmware_x.System.{
  Env, plain, Env-plain, History, next, M, ◌>>=◌, ◌>>◌, advance, then_run, pure,
}
use firmware_x.System.Fine.{is_fine, then_run-fine, to_result-returns}
use firmware_x.Functionfs.{Handler}
use firmware_x.Functionfs.Mount.Returns.{ffs_cleanup-Tame}
use firmware_x.Functionfs.Mount.{ffs_cleanup}
use firmware_x.Functionfs.Aio.{aio_cleanup}
use firmware_x.Functionfs.Aio.Pointers.{Pointers}
use firmware_x.Functionfs.Lifecycle
use firmware_x.Configfs
use firmware_x.Configfs.{ConfigfsHandle}
use firmware_x.Bootloader.{Bootloader, cleanup, on_cfs, on_ffs}

module _ (env : Env) where
  disable-fine :
      (t : ConfigfsHandle) (h : History) → is_fine (Configfs.disable (plain env) t h).0 ≡ true
  unfolding Configfs.disable
  disable-fine t h = ground arith

  remove-fine :
      (t : ConfigfsHandle) (h : History) → is_fine (Configfs.cleanup (plain env) t h).0 ≡ true
  unfolding Configfs.cleanup
  remove-fine t h = ground arith

  aio_cleanup-fine :
      (s : Handler) (h : History) → Pointers s → is_fine (aio_cleanup (plain env) s h).0 ≡ true
  unfolding aio_cleanup
  aio_cleanup-fine s h p = ground (arith, p.has_ctx, p.has_in, p.has_out)

  aio_cleanup_if-fine :
      (b : Bool) (s : Handler) (h : History)
      → Pointers s
      → is_fine ((if b then aio_cleanup (plain env) else pure false) s h).0 ≡ true
  aio_cleanup_if-fine true s h p = aio_cleanup-fine s h p
  aio_cleanup_if-fine false s h p = refl

  handler_cleanup-fine :
      (s : Handler) (h : History)
      → Pointers s
      → is_fine (Lifecycle.cleanup (plain env) s h).0 ≡ true
  unfolding Lifecycle.cleanup
  handler_cleanup-fine s h p =
      let (fine, same) = ffs_cleanup-Tame env s h in
      let t = (ffs_cleanup (plain env) s h).1 in
      let pointers : Pointers t = record {
        c = p.c;
        i = p.i;
        o = p.o;
        has_ctx = same.ctx_same ∙ p.has_ctx;
        has_in = same.in_same ∙ p.has_in;
        has_out = same.out_same ∙ p.has_out;
      } in
      then_run-fine (λ (b : Bool). if b then aio_cleanup (plain env) else pure false)
        (ffs_cleanup (plain env) s h) fine
        (λ b. aio_cleanup_if-fine b t (ffs_cleanup (plain env) s h).2 pointers)

  advance-fine :
      (b : Bool) (rest : M Bootloader (Unit {0})) (t : Bootloader) (h : History)
      → is_fine (rest t h).0 ≡ true
      → is_fine ((advance (plain env) b >> rest) t h).0 ≡ true
  advance-fine true rest t h fine = fine
  advance-fine false rest t h fine = refl

  advance_last-fine :
      (b : Bool) (t : Bootloader) (h : History) → is_fine (advance (plain env) b t h).0 ≡ true
  advance_last-fine true t h = refl
  advance_last-fine false t h = refl

  plain-cleanup_returns :
      (b : Bootloader) (h : History)
      → Pointers b.ffs_h
      → (r : Bool) × (t : Bootloader) × (k : History) × (cleanup (plain env) b h ≡ (next r, t, k))
  unfolding cleanup
  plain-cleanup_returns b h p =
      let e = plain env in
      let removing : M Bootloader (Unit {0}) = on_cfs (Configfs.cleanup e) >>= advance e in
      let after_unmount = λ (x : Bool). advance e x >> removing in
      let unmounting : M Bootloader (Unit {0}) = on_ffs (Lifecycle.cleanup e) >>= after_unmount in
      let after_disable = λ (x : Bool). advance e x >> unmounting in
      let disabled = on_cfs (Configfs.disable e) b h in
      let b1 = disabled.1 in
      let unmounted = on_ffs (Lifecycle.cleanup e) b1 disabled.2 in
      let removed = on_cfs (Configfs.cleanup e) unmounted.1 unmounted.2 in
      let removes : is_fine (removing unmounted.1 unmounted.2).0 ≡ true =
        then_run-fine (advance e) removed (remove-fine unmounted.1.cfs_h unmounted.2)
          (λ x. advance_last-fine x removed.1 removed.2) in
      let unmounts : is_fine (unmounting b1 disabled.2).0 ≡ true =
        then_run-fine after_unmount unmounted (handler_cleanup-fine b.ffs_h disabled.2 p)
          (λ x. advance-fine x removing unmounted.1 unmounted.2 removes) in
      let all : is_fine (then_run disabled after_disable).0 ≡ true =
        then_run-fine after_disable disabled (disable-fine b.cfs_h h)
          (λ x. advance-fine x unmounting b1 disabled.2 unmounts) in
      let run = then_run disabled after_disable in
      let (r, returns) = to_result-returns run all in (r, run.1, run.2, returns)

-- Once the handler's pointers are set, `cleanup` of the bootloader returns true or false, whatever the
-- outside answers.
pub cleanup_returns :
    (env : Env) (b : Bootloader) (h : History)
    → Pointers b.ffs_h
    → (r : Bool) × (t : Bootloader) × (k : History) × (cleanup env b h ≡ (next r, t, k))
cleanup_returns env = rw (Env-plain env) (plain-cleanup_returns env)
