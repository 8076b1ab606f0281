-- ===== src/System/Suffix.antt =====
-- The first part of what a sequence would do, when it may end early.
use firmware_x.Prelude.{◌≡◌, refl, List, ◌∷◌, Bool, true, false, some, arith, if◌then◌else◌}
use firmware_x.System.Calls.{History}
use firmware_x.System.Monad.{
  Env, plain, Exit, next, return_false, thrown, undefined, M, ◌>>◌, advance, then_run, to_result,
  pure,
}

-- The first list is what remains of the second without some of its first elements.
pub data Suffix {ℓ} {A : Type ℓ} (xs : List A) : List A → Type ℓ where
  whole : Suffix xs xs
  under : (y : A) (ys : List A) → Suffix xs ys → Suffix xs (y ∷ ys)

pub some-same : {A : Type 0} {x y : A} → some x ≡ some y → x ≡ y
some-same e = ground (arith, e)

pub shorter : {A : Type 0} (x : A) (xs total : List A) → Suffix (x ∷ xs) total → Suffix xs total
shorter x xs _ whole = under x xs whole
shorter x xs _ (under y ys s) = under y ys (shorter x xs ys s)

-- A part of a function and what comes behind it.
pub sequel :
    {S : Type 0} (P : History → Type 0) (rest : M S (Unit {0})) (r : Exit (Unit {0}) × S × History)
    → P r.2
    → P (rest r.1 r.2).2
    → P (then_run r (λ u. rest)).2
sequel P rest (next u, s, h) p f = f
sequel P rest (return_false, s, h) p f = p
sequel P rest (thrown, s, h) p f = p
sequel P rest (undefined, s, h) p f = p

pub and_then-part :
    {S : Type 0} (P : History → Type 0) (rest : M S Bool) (r : Exit Bool × S × History)
    → P r.2
    → ((s : S) (h : History) → r ≡ (next true, s, h) → P (rest s h).2)
    → P (then_run r (λ first. if first then rest else pure false)).2
and_then-part P rest (next true, s, h) p f = f s h refl
and_then-part P rest (next false, s, h) p f = p
and_then-part P rest (return_false, s, h) p f = p
and_then-part P rest (thrown, s, h) p f = p
and_then-part P rest (undefined, s, h) p f = p

pub to_result-part :
    {S : Type 0} (P : History → Type 0) (r : Exit (Unit {0}) × S × History)
    → P r.2
    → P (to_result r).2
to_result-part P (next u, s, h) p = p
to_result-part P (return_false, s, h) p = p
to_result-part P (thrown, s, h) p = p
to_result-part P (undefined, s, h) p = p

-- `m`, then `if ( !… ) return false;`, and then the rest: what holds of the calls of `m`, and of those
-- of the rest when `m` has returned true, holds of all.
pub guarded :
    {S : Type 0} (env : Env) (P : History → Type 0) (rest : M S (Unit {0}))
    (r : Exit Bool × S × History)
    → P r.2
    → ((b : S) (h : History) → r ≡ (next true, b, h) → P (rest b h).2)
    → P (then_run r (λ x. advance (plain env) x >> rest)).2
guarded env P rest (next true, b, h) p f = f b h refl
guarded env P rest (next false, b, h) p f = p
guarded env P rest (return_false, b, h) p f = p
guarded env P rest (thrown, b, h) p f = p
guarded env P rest (undefined, b, h) p f = p

pub last_part :
    {S : Type 0} (env : Env) (P : History → Type 0) (r : Exit Bool × S × History)
    → P r.2
    → P (then_run r (advance (plain env))).2
last_part env P (next true, b, h) p = p
last_part env P (next false, b, h) p = p
last_part env P (return_false, b, h) p = p
last_part env P (thrown, b, h) p = p
last_part env P (undefined, b, h) p = p
