-- ===== src/System/Fine.antt =====
-- Pieces of a function that end neither by an exception nor in undefined behaviour.
use firmware_x.Prelude.{◌≡◌, refl, Bool, true, false, arith}
use firmware_x.System.Calls.{History}
use firmware_x.System.Monad.{Exit, next, return_false, thrown, undefined, M, then_run, to_result}

abbrev pub is_fine : {A : Type 0} → Exit A → Bool
is_fine (next a) = true
is_fine return_false = true
is_fine thrown = false
is_fine undefined = false

module _ {S A B : Type 0} (f : A → M S B) where
  pub then_run-fine :
      (r : Exit A × S × History)
      → is_fine r.0 ≡ true
      → ((a : A) → is_fine (f a r.1 r.2).0 ≡ true)
      → is_fine (then_run r f).0 ≡ true
  then_run-fine (next a, t, i) e rest = rest a
  then_run-fine (return_false, t, i) e rest = refl
  then_run-fine (thrown, t, i) e rest = e
  then_run-fine (undefined, t, i) e rest = e

-- It comes to its end.
abbrev pub is_next : {A : Type 0} → Exit A → Bool
is_next (next a) = true
is_next return_false = false
is_next thrown = false
is_next undefined = false

pub is_next_lem : {A : Type 0} (x : Exit A) → is_next x ≡ true → (a : A) × (x ≡ next a)
is_next_lem (next a) e = (a, refl)
is_next_lem return_false e = absurd (ground arith)
is_next_lem thrown e = absurd (ground arith)
is_next_lem undefined e = absurd (ground arith)

module _ {S A B : Type 0} (f : A → M S B) where
  -- A sequence does, where the rest does for what the first part has given.
  pub then_run-is_next :
      (r : Exit A × S × History)
      → is_next r.0 ≡ true
      → ((a : A) → r.0 ≡ next a → is_next (f a r.1 r.2).0 ≡ true)
      → is_next (then_run r f).0 ≡ true
  then_run-is_next (next a, t, i) e rest = rest a refl
  then_run-is_next (return_false, t, i) e rest = absurd (ground arith)
  then_run-is_next (thrown, t, i) e rest = absurd (ground arith)
  then_run-is_next (undefined, t, i) e rest = absurd (ground arith)

-- A whole function that is fine returns.
pub to_result-returns :
    {S : Type 0} (r : Exit (Unit {0}) × S × History)
    → is_fine r.0 ≡ true
    → (b : Bool) × (to_result r ≡ (next b, r.1, r.2))
to_result-returns (next u, t, i) e = (true, refl)
to_result-returns (return_false, t, i) e = (false, refl)
to_result-returns (thrown, t, i) e = absurd (ground arith)
to_result-returns (undefined, t, i) e = absurd (ground arith)
