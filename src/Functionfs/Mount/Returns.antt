-- ===== src/Functionfs/Mount/Returns.antt =====
-- How `ffs_cleanup` ends, and what becomes of the pointers of the transfers.
use firmware_x.Prelude.{◌≡◌, ◌∙◌, refl, true, false, arith}
use firmware_x.Prelude.Int.{ℤ, minus_one}
use firmware_x.System.{
  Env, plain, History, Exit, next, return_false, thrown, undefined, M, ◌>>=◌, ◌>>◌, gets, modify,
  call, umount, advance, then_run, to_result,
}
use firmware_x.System.Fine.{is_fine}
use firmware_x.Prelude.Int.{is_nat}
use firmware_x.Functionfs.{Handler}
use firmware_x.Functionfs.Mount.{ffs_cleanup, close_pipe, close_ctrl}

pub record SameBlocks (s t : Handler) : Type 0 where
  pub ctx_same : t.ctx ≡ s.ctx
  pub in_same : t.iocb_in ≡ s.iocb_in
  pub out_same : t.iocb_out ≡ s.iocb_out

-- It ends well, with the blocks as they were.
abbrev Tame : {A : Type 0} → Handler → Exit A × Handler × History → Type 0
Tame s r = (is_fine r.0 ≡ true) × SameBlocks s r.1

abbrev AllTame : {A : Type 0} → M Handler A → Type 0
AllTame m = (s : Handler) (h : History) → Tame s (m s h)

module _ {A B : Type 0} (f : A → M Handler B) (rest : (a : A) → AllTame (f a)) (s : Handler) where
  then_run-Tame : (r : Exit A × Handler × History) → Tame s r → Tame s (then_run r f)
  then_run-Tame (next a, t, i) (fine, same) =
      let (fine2, same2) = rest a t i in
      (
        fine2,
        record {
          ctx_same = same2.ctx_same ∙ same.ctx_same;
          in_same = same2.in_same ∙ same.in_same;
          out_same = same2.out_same ∙ same.out_same;
        },
      )
  then_run-Tame (return_false, t, i) tame = tame
  then_run-Tame (thrown, t, i) tame = tame
  then_run-Tame (undefined, t, i) tame = tame

then-Tame :
    {A B : Type 0} (m : M Handler A) (f : A → M Handler B)
    → AllTame m
    → ((a : A) → AllTame (f a))
    → AllTame (m >>= f)
then-Tame m f first rest s h = then_run-Tame f rest s (m s h) (first s h)

to_result-Tame :
    (s : Handler) (r : Exit (Unit {0}) × Handler × History) → Tame s r → Tame s (to_result r)
to_result-Tame s (next u, t, i) (e, same) = (refl, same)
to_result-Tame s (return_false, t, i) (e, same) = (refl, same)
to_result-Tame s (thrown, t, i) (e, same) = absurd (ground arith)
to_result-Tame s (undefined, t, i) (e, same) = absurd (ground arith)

same : (s : Handler) → SameBlocks s s
same s = record { ctx_same = refl; in_same = refl; out_same = refl }

module _ (env : Env) (fd : ℤ) (forget : Handler → Handler)
    (forgets : (s : Handler) → SameBlocks s (forget s)) where
  close_pipe-Tame : AllTame (close_pipe (plain env) fd forget)
  unfolding close_pipe
  close_pipe-Tame s h = ground (arith, forgets s)

  close_ctrl-Tame : AllTame (close_ctrl (plain env) fd forget)
  unfolding close_ctrl
  close_ctrl-Tame s h = ground (arith, forgets s)

module _ (env : Env) where
  abbrev unmounting : M Handler (Unit {0})
  unmounting = do
    unmounted ← call (plain env) umount
    advance (plain env) (is_nat 0 unmounted.ret)
    modify (λ (s : Handler). record s { ffs_initialized = false })

  unmount-Tame : AllTame unmounting
  unmount-Tame s h = ground arith

  -- `ffs_cleanup` returns, from any state and whatever the outside answers, and does not touch the
  -- context and the control blocks.
  pub ffs_cleanup-Tame : AllTame (ffs_cleanup (plain env))
  unfolding ffs_cleanup
  ffs_cleanup-Tame s h =
      let e = plain env in
      let forget_in = λ (s : Handler). record s { fd_ffs_ep_in = minus_one } in
      let forget_out = λ (s : Handler). record s { fd_ffs_ep_out = minus_one } in
      let forget_ctrl = λ (s : Handler). record s { fd_ffs_ep_crtl = minus_one } in
      let close_3 = λ (fd : ℤ). close_ctrl e fd forget_ctrl >> unmounting in
      let tame_3 : (fd : ℤ) → AllTame (close_3 fd) = λ fd.
        then-Tame (close_ctrl e fd forget_ctrl) (λ (u : Unit {0}). unmounting)
          (close_ctrl-Tame env fd forget_ctrl
            (λ s. record { ctx_same = refl; in_same = refl; out_same = refl }))
          (λ u. unmount-Tame) in
      let rest_3 : M Handler (Unit {0}) = gets (λ s. s.fd_ffs_ep_crtl) >>= close_3 in
      let all_3 : AllTame rest_3 =
        then-Tame (gets (λ s. s.fd_ffs_ep_crtl)) close_3 (λ s h. (refl, same s)) tame_3 in
      let close_2 = λ (fd : ℤ). close_pipe e fd forget_out >> rest_3 in
      let tame_2 : (fd : ℤ) → AllTame (close_2 fd) = λ fd.
        then-Tame (close_pipe e fd forget_out) (λ (u : Unit {0}). rest_3)
          (close_pipe-Tame env fd forget_out
            (λ s. record { ctx_same = refl; in_same = refl; out_same = refl }))
          (λ u. all_3) in
      let rest_2 : M Handler (Unit {0}) = gets (λ s. s.fd_ffs_ep_out) >>= close_2 in
      let all_2 : AllTame rest_2 =
        then-Tame (gets (λ s. s.fd_ffs_ep_out)) close_2 (λ s h. (refl, same s)) tame_2 in
      let close_1 = λ (fd : ℤ). close_pipe e fd forget_in >> rest_2 in
      let tame_1 : (fd : ℤ) → AllTame (close_1 fd) = λ fd.
        then-Tame (close_pipe e fd forget_in) (λ (u : Unit {0}). rest_2)
          (close_pipe-Tame env fd forget_in
            (λ s. record { ctx_same = refl; in_same = refl; out_same = refl }))
          (λ u. all_2) in
      let rest_1 : M Handler (Unit {0}) = gets (λ s. s.fd_ffs_ep_in) >>= close_1 in
      let all_1 : AllTame rest_1 =
        then-Tame (gets (λ s. s.fd_ffs_ep_in)) close_1 (λ s h. (refl, same s)) tame_1 in
      to_result-Tame s (rest_1 s h) (all_1 s h)
