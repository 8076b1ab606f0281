-- ===== src/System/Tidy.antt =====
-- When a state of libusbgx is cleaned up by a function that makes things in it.
use firmware_x.Prelude.{◌≡◌, subst, List, [], ◌∷◌, none, some}
use firmware_x.System.Calls.{Pointer, Call, usbg_cleanup, History}
use firmware_x.System.Monad.{Exit, next, return_false, thrown, undefined, then_run, M}

-- The calls of `usbg_cleanup` for a state that may be null.
abbrev pub cleaning : Pointer → History → History
cleaning none h = h
cleaning (some p) h = usbg_cleanup p ∷ h

-- The calls of `usbg_cleanup`.
unfoldable pub cleanups : History → List Call
cleanups [] = []
cleanups (usbg_cleanup p ∷ h) = usbg_cleanup p ∷ cleanups h
cleanups (_ ∷ h) = cleanups h

module _ {S : Type 0} (state : S → Pointer) where
  -- A piece cleans up just where it returns false; `before` are the cleanups before it.
  abbrev pub Tidy : List Call → Exit (Unit {0}) × S × History → Type 0
  Tidy before (next u, t, h) = cleanups h ≡ before
  Tidy before (return_false, t, h) = cleanups h ≡ cleaning (state t) before
  Tidy before (thrown, t, h) = ⊥
  Tidy before (undefined, t, h) = ⊥

  -- One piece behind another.
  pub then_run-Tidy :
      (rest : M S (Unit {0})) (before : List Call) (r : Exit (Unit {0}) × S × History)
      → ((t : S) (h : History) → Tidy (cleanups h) (rest t h))
      → Tidy before r
      → Tidy before (then_run r (λ u. rest))
  then_run-Tidy rest before (next u, t, h) tidies tidy =
      subst (λ b. Tidy b (rest t h)) tidy (tidies t h)
  then_run-Tidy rest before (return_false, t, h) tidies tidy = tidy
  then_run-Tidy rest before (thrown, t, h) tidies tidy = tidy
  then_run-Tidy rest before (undefined, t, h) tidies tidy = tidy
