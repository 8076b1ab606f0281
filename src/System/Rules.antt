-- ===== src/System/Rules.antt =====
-- Rules for the runs of member functions: what every piece keeps, a whole function keeps.
use firmware_x.Prelude.{◌≡◌, refl, Bool, true, false, arith}
use firmware_x.System.Calls.{History}
use firmware_x.System.Monad.{
  Exit, next, return_false, thrown, undefined, M, ◌>>=◌, ◌>>◌, then_run, method, to_result, Env,
  plain, advance,
}

-- A relation between an object and its calls before, and after.
abbrev pub Rel : Type 0 → Type 1
Rel S = S → History → S → History → Type 0

-- However `m` ends.
abbrev pub Keeps : {S A : Type 0} → Rel S → M S A → Type 0
Keeps {S} R m = (s : S) (h : History) → R s h (m s h).1 (m s h).2

pub record Preorder {S : Type 0} (R : Rel S) : Type 0 where
  pub reflexive : (s : S) (h : History) → R s h s h
  pub transitive : (s t u : S) (h i j : History) → R s h t i → R t i u j → R s h u j

module _ {S : Type 0} (R : Rel S) (order : Preorder R) where
  module _ {A B : Type 0} (f : A → M S B) (rest : (a : A) → Keeps R (f a)) where
    then_run-keeps :
        (s : S) (h : History) (r : Exit A × S × History)
        → R s h r.1 r.2
        → R s h (then_run r f).1 (then_run r f).2
    then_run-keeps s h (next a, t, i) kept = order.transitive s t _ h i _ kept (rest a t i)
    then_run-keeps s h (return_false, t, i) kept = kept
    then_run-keeps s h (thrown, t, i) kept = kept
    then_run-keeps s h (undefined, t, i) kept = kept

    pub >>=-Keeps : (m : M S A) → Keeps R m → Keeps R (m >>= f)
    >>=-Keeps m first s h = then_run-keeps s h (m s h) (first s h)

-- Inversion: a sequence that comes to its end has come through its first part.
module _ {S A B : Type 0} (f : A → M S B) (s' : S) (h' : History) (b : B) where
  abbrev Through : Exit A × S × History → Type 0
  Through r =
      (a : A) × (t : S) × (i : History) × (r ≡ (next a, t, i)) × (f a t i ≡ (next b, s', h'))

  then_run-next : (r : Exit A × S × History) → then_run r f ≡ (next b, s', h') → Through r
  then_run-next (next a, t, i) e = (a, t, i, refl, e)
  then_run-next (return_false, t, i) e = absurd (ground arith)
  then_run-next (thrown, t, i) e = absurd (ground arith)
  then_run-next (undefined, t, i) e = absurd (ground arith)

  pub >>=-next :
      (m : M S A) (s : S) (h : History) → (m >>= f) s h ≡ (next b, s', h') → Through (m s h)
  >>=-next m s h e = then_run-next (m s h) e

module _ {S : Type 0} (s' : S) (h' : History) where
  to_result-true :
      (r : Exit (Unit {0}) × S × History)
      → to_result r ≡ (next true, s', h')
      → r ≡ (next tt, s', h')
  to_result-true (next a, t, i) e = ground arith
  to_result-true (return_false, t, i) e = absurd (ground arith)
  to_result-true (thrown, t, i) e = absurd (ground arith)
  to_result-true (undefined, t, i) e = absurd (ground arith)

  pub method-true :
      (m : M S (Unit {0})) (s : S) (h : History)
      → method m s h ≡ (next true, s', h')
      → m s h ≡ (next tt, s', h')
  method-true m s h e = to_result-true (m s h) e

-- A call whose result has to be true, with RAC_ADVANCE, and what follows: where that comes to its end,
-- the result was true.
module _ {S : Type 0} (env : Env) (part : M S Bool) (rest : M S (Unit {0})) (s' : S)
    (h' : History) where
  abbrev required : M S (Unit {0})
  required = do r ← part; advance (plain env) r; rest

  abbrev WasTrue : Exit Bool × S × History → Type 0
  WasTrue r = (t : S) × (i : History) × (r ≡ (next true, t, i)) × (rest t i ≡ (next tt, s', h'))

  was_true :
      (r : Exit Bool × S × History)
      → then_run r (λ b. advance (plain env) b >> rest) ≡ (next tt, s', h')
      → WasTrue r
  was_true (next true, t, i) e = (t, i, refl, e)
  was_true (next false, t, i) e = absurd (ground arith)
  was_true (return_false, t, i) e = absurd (ground arith)
  was_true (thrown, t, i) e = absurd (ground arith)
  was_true (undefined, t, i) e = absurd (ground arith)

  pub required-next : (s : S) (h : History) → required s h ≡ (next tt, s', h') → WasTrue (part s h)
  required-next s h e = was_true (part s h) e

module _ {S : Type 0} (env : Env) (s' : S) (h' : History) where
  last_true :
      (r : Exit Bool × S × History)
      → then_run r (advance (plain env)) ≡ (next tt, s', h')
      → r ≡ (next true, s', h')
  last_true (next true, t, i) e = ground arith
  last_true (next false, t, i) e = absurd (ground arith)
  last_true (return_false, t, i) e = absurd (ground arith)
  last_true (thrown, t, i) e = absurd (ground arith)
  last_true (undefined, t, i) e = absurd (ground arith)

  -- The last call of a function.
  pub required-last :
      (part : M S Bool) (s : S) (h : History)
      → (part >>= advance (plain env)) s h ≡ (next tt, s', h')
      → part s h ≡ (next true, s', h')
  required-last part s h e = last_true (part s h) e
