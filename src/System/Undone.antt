-- ===== src/System/Undone.antt =====
-- The calls that take something down again, and the pieces that make none of them.
use firmware_x.Prelude.{◌≡◌, ◌∙◌, refl, List, [], ◌∷◌}
use firmware_x.System.Calls.{
  Call, close, umount, io_destroy, usbg_rm_gadget, usbg_disable_gadget, History,
}
use firmware_x.System.Monad.{
  Exit, next, return_false, thrown, undefined, M, ◌>>=◌, method, to_result,
}
use firmware_x.System.Rules.{Rel, Keeps, Preorder, >>=-Keeps}

-- The calls that take something down again.
unfoldable pub undone : History → List Call
undone [] = []
undone (close fd ∷ h) = close fd ∷ undone h
undone (umount ∷ h) = umount ∷ undone h
undone (io_destroy c ∷ h) = io_destroy c ∷ undone h
undone (usbg_rm_gadget g ∷ h) = usbg_rm_gadget g ∷ undone h
undone (usbg_disable_gadget g ∷ h) = usbg_disable_gadget g ∷ undone h
undone (_ ∷ h) = undone h

-- No such call is added.
abbrev pub Leaves : {S : Type 0} → Rel S
Leaves s h s' h' = undone h' ≡ undone h

Leaves-Preorder : {S : Type 0} → Preorder (Leaves {S = S})
Leaves-Preorder = record { reflexive = λ s h. refl; transitive = λ s t u h i j p q. q ∙ p }

pub then-Leaves :
    {S A B : Type 0} (m : M S A) (f : A → M S B)
    → Keeps Leaves m
    → ((a : A) → Keeps Leaves (f a))
    → Keeps Leaves (m >>= f)
then-Leaves m f first rest = >>=-Keeps Leaves Leaves-Preorder f rest m first

to_result-Leaves :
    {S : Type 0} (s : S) (h : History) (r : Exit (Unit {0}) × S × History)
    → undone r.2 ≡ undone h
    → undone (to_result r).2 ≡ undone h
to_result-Leaves s h (next u, t, i) e = e
to_result-Leaves s h (return_false, t, i) e = e
to_result-Leaves s h (thrown, t, i) e = e
to_result-Leaves s h (undefined, t, i) e = e

pub method-Leaves : {S : Type 0} (m : M S (Unit {0})) → Keeps Leaves m → Keeps Leaves (method m)
method-Leaves m kept s h = to_result-Leaves s h (m s h) (kept s h)
