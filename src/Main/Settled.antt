-- ===== src/Main/Settled.antt =====
-- What the program as a whole leaves behind.
use firmware_x.Prelude.{◌≡◌, ◌∙◌, sym, ap, ℕ, List, [], Bool, true, some}
use firmware_x.System.{Call, Env, History, Exit, next}
use firmware_x.System.Undone.{undone}
use firmware_x.Functionfs.{Handler}
use firmware_x.Configfs.{ConfigfsHandle}
use firmware_x.Bootloader.{Bootloader, init, cleanup}
use firmware_x.Bootloader.Failure.{bootloader_init_undoes_nothing}
use firmware_x.Bootloader.Lifetime.{takedown, cleanup_takes_down}
use firmware_x.System.Suffix.{Suffix, some-same}
use firmware_x.Bootloader.Partial.{cleanup-Suffix}
use firmware_x.Bootloader.Service.{Generated, Locals}
use firmware_x.Main.{Program, cleaning, started, Steps}
use firmware_x.Main.Up.{in_loop, Up, loop-Up}

-- The whole take-down of what a bootloader has.
abbrev pub takedown_of : Bootloader → ℕ → List Call → List Call
takedown_of b c h =
    takedown b.cfs_h.g c b.ffs_h.fd_ffs_ep_in b.ffs_h.fd_ffs_ep_out b.ffs_h.fd_ffs_ep_crtl h

-- `k` are the calls when `cleanup()` has returned `r`: it has taken down the first part of what `init()`
-- of `b` has made, and all of it if `r` is true.
pub record Settled (env : Env) (b : Bootloader) (r : Bool) (k : History) : Type 0 where
  pub made : Bootloader
  pub calls : History
  pub begun : init env b [] ≡ (next true, made, calls)
  pub c : ℕ
  pub had_ctx : made.ffs_h.ctx ≡ some c
  pub part : Suffix (undone k) (takedown_of made c [])
  pub down : r ≡ true → undone k ≡ takedown_of made c []

module _ (env : Env) (b : Bootloader) where
  nothing_before :
      (made : Bootloader) (calls : History)
      → init env b [] ≡ (next true, made, calls)
      → undone calls ≡ []
  unfolding undone
  nothing_before made calls e =
      ap (λ (x : Exit Bool × Bootloader × History). undone x.2) (sym e)
      ∙ bootloader_init_undoes_nothing env b []

  -- The take-down is that of what `init()` has made.
  Up-takedown :
      (s : Bootloader) (h : History) (c : ℕ) (up : Up env b s h)
      → takedown_of s c (undone h) ≡ takedown_of up.made c []
  Up-takedown s h c up =
      let frame = up.attended.handler.frame in
      let nothing : undone h ≡ [] =
        up.attended.handler.kept ∙ nothing_before up.made up.calls up.begun in
      let ctrl : s.ffs_h.fd_ffs_ep_crtl ≡ up.made.ffs_h.fd_ffs_ep_crtl =
        ap (λ (x : Handler). x.fd_ffs_ep_crtl) frame in
      let in_ : s.ffs_h.fd_ffs_ep_in ≡ up.made.ffs_h.fd_ffs_ep_in =
        ap (λ (x : Handler). x.fd_ffs_ep_in) frame in
      let out : s.ffs_h.fd_ffs_ep_out ≡ up.made.ffs_h.fd_ffs_ep_out =
        ap (λ (x : Handler). x.fd_ffs_ep_out) frame in
      let g : s.cfs_h.g ≡ up.made.cfs_h.g = ap (λ (x : ConfigfsHandle). x.g) up.attended.gadget in
      λ i. takedown (g i) c (in_ i) (out i) (ctrl i) (nothing i)

  Up-Settled :
      (s t : Bootloader) (h k : History) (r : Bool)
      → Up env b s h
      → cleanup env s h ≡ (next r, t, k)
      → Settled env b r k
  Up-Settled s t h k r up e =
      let c = up.set.c in
      let had : s.ffs_h.ctx ≡ some c =
        ap (λ (x : Handler). x.ctx) up.attended.handler.frame ∙ up.set.has_ctx in
      let calls : undone (cleanup env s h).2 ≡ undone k =
        ap (λ (x : Exit Bool × Bootloader × History). undone x.2) e in
      record {
        made = up.made;
        calls = up.calls;
        begun = up.begun;
        c = c;
        had_ctx = up.set.has_ctx;
        part = rw⁻¹ (calls, Up-takedown s h c up) (cleanup-Suffix env s h c had);
        down = λ all.
            let (c', had', taken) =
              cleanup_takes_down env s t h k (e ∙ λ i. (next (all i), t, k)) in
            let c_is : c' ≡ c = some-same (sym had' ∙ had) in
            taken ∙ ap (λ x. takedown_of s x (undone h)) c_is ∙ Up-takedown s h c up;
      }

  -- In every order of the steps: when the service has come to `cleanup()` and that returns, true or
  -- false, nothing was taken down in the whole run but the first part of what `init()` of the program
  -- has made, in the order of `takedown` and each once; and all of it if it returned true.
  pub program_takes_down :
      (generated : Generated) (l : Locals) (p : Program) (t : Bootloader) (k : History) (r : Bool)
      → Steps env generated (started b l) p
      → p.service ≡ cleaning
      → cleanup env p.bootloader p.calls ≡ (next r, t, k)
      → Settled env b r k
  program_takes_down generated l p t k r ss e returned =
      Up-Settled p.bootloader t p.calls k r (loop-Up env generated b l p ss (ap in_loop e)) returned
