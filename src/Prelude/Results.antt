-- ===== src/Prelude/Results.antt =====
-- What a member function can do: return, or leave the language's defined behaviour.
use mathlib.Core.Path.{◌≡◌, refl}

pub data Outcome {ℓ} (T : Type ℓ) : Type ℓ where
  -- undefined behaviour of C++, such as an iterator moved past the end of its vector
  undefined : Outcome T
  -- `std::out_of_range`, thrown by `vector::at`
  out_of_range : Outcome T
  -- no result of the code: the fuel given to a loop of the model has run out
  exhausted : Outcome T
  ok : T → Outcome T

infixl 5 ◌>>=◌
abbrev pub ◌>>=◌ {ℓ κ} : {T : Type ℓ} {U : Type κ} → Outcome T → (T → Outcome U) → Outcome U
undefined >>= rest = undefined
out_of_range >>= rest = out_of_range
exhausted >>= rest = exhausted
ok t >>= rest = rest t

-- Where a sequence returns, its first part has returned, and the rest from there.
pub bind_parts {ℓ κ} :
    {T : Type ℓ} {U : Type κ} (first : Outcome T) (rest : T → Outcome U) {u : U}
    → (first >>= rest) ≡ ok u
    → (t : T) × (first ≡ ok t) × (rest t ≡ ok u)
bind_parts undefined rest returns = cc
bind_parts out_of_range rest returns = cc
bind_parts exhausted rest returns = cc
bind_parts (ok t) rest returns = (t, refl, returns)
