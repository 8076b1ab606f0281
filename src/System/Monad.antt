-- ===== src/System/Monad.antt =====
-- A member function as a function of the object, and of the calls made so far.
use mathlib.Core.Bool.{Bool-set}
use mathlib.Core.HLevel.{is_prop→PathP, Π_prop}
use firmware_x.Prelude.{
  ℕ, ◌≡◌, refl, fun_ext, List, ◌∷◌, Bool, true, false, Option, none, some, ltb, if◌then◌else◌,
}
use firmware_x.Prelude.Int.{ℤ, pos, negsuc}
use firmware_x.System.Structs.{Uapi}
use firmware_x.System.Calls.{History, Call, Reply, Iocb, pread, pwrite}

-- RAC_ADVANCE of RunAndCheck.hpp (libBzhUtils, not in this repository): with its condition false it
-- runs its last argument, else the program goes on behind it.
pub record RunAndCheck : Type 0 where
  pub goes_on : Bool → Bool
  pub goes_on_lem : (b : Bool) → goes_on b ≡ b

abbrev pub as_documented : RunAndCheck
as_documented = record { goes_on = λ b. b; goes_on_lem = λ b. refl }

-- The behaviour leaves no choice, so that a proof may take the macro as it is documented.
pub RunAndCheck-unique : (r : RunAndCheck) → r ≡ as_documented
RunAndCheck-unique r = λ i. record {
  goes_on = fun_ext r.goes_on_lem i;
  goes_on_lem =
      is_prop→PathP (λ j. (b : Bool) → fun_ext r.goes_on_lem j b ≡ b)
        (λ j. Π_prop (λ b. Bool-set (fun_ext r.goes_on_lem j b) b)) r.goes_on_lem (λ b. refl) i;
}

-- io_prep_pwrite and io_prep_pread of libaio: a block for this descriptor, buffer and offset.
pub record Libaio : Type 0 where
  pub prep_pwrite : ℤ → List ℕ → ℕ → Iocb
  pub prep_pread : ℤ → List ℕ → ℕ → Iocb
  pub pwrite_opcode : (fd : ℤ) (b : List ℕ) (o : ℕ) → (prep_pwrite fd b o).aio_lio_opcode ≡ pwrite
  pub pwrite_fildes : (fd : ℤ) (b : List ℕ) (o : ℕ) → (prep_pwrite fd b o).aio_fildes ≡ fd
  pub pread_opcode : (fd : ℤ) (b : List ℕ) (o : ℕ) → (prep_pread fd b o).aio_lio_opcode ≡ pread
  pub pread_fildes : (fd : ℤ) (b : List ℕ) (o : ℕ) → (prep_pread fd b o).aio_fildes ≡ fd

-- Everything outside.
pub record Env : Type 0 where
  pub rac : RunAndCheck
  pub aio : Libaio
  pub uapi : Uapi
  pub answer : History → Reply
  -- the contents of a control block that `new` has made
  pub new_iocb : Iocb

abbrev pub plain : Env → Env
plain env = record env { rac = as_documented }

pub Env-plain : (env : Env) → env ≡ plain env
Env-plain env = λ i. record env { rac = RunAndCheck-unique env.rac i }

-- How a piece of a function's body ends.
pub data Exit (A : Type 0) : Type 0 where
  next : A → Exit A
  -- the function has returned false
  return_false : Exit A
  -- an exception of std::filesystem leaves the function
  thrown : Exit A
  -- undefined behaviour, such as a use of a pointer that was never set
  undefined : Exit A

abbrev pub M : Type 0 → Type 0 → Type 0
M S A = S → History → Exit A × S × History

module _ {S A : Type 0} where
  abbrev pub pure : A → M S A
  pure a s h = (next a, s, h)

  abbrev pub gets : (S → A) → M S A
  gets f s h = (next (f s), s, h)

  abbrev pub dereference : Option A → M S A
  dereference none s h = (undefined, s, h)
  dereference (some a) s h = (next a, s, h)

abbrev pub then_run : {S A B : Type 0} → Exit A × S × History → (A → M S B) → Exit B × S × History
then_run (next a, s, h) f = f a s h
then_run (return_false, s, h) f = (return_false, s, h)
then_run (thrown, s, h) f = (thrown, s, h)
then_run (undefined, s, h) f = (undefined, s, h)

infixl 5 ◌>>=◌ ◌>>◌
abbrev pub ◌>>=◌ : {S A B : Type 0} → M S A → (A → M S B) → M S B
◌>>=◌ m f s h = then_run (m s h) f

abbrev pub ◌>>◌ : {S B : Type 0} → M S (Unit {0}) → M S B → M S B
m >> k = m >>= λ _. k

module _ {S : Type 0} where
  abbrev pub modify : (S → S) → M S (Unit {0})
  modify f s h = (next tt, f s, h)

  -- `if ( !b ) return false;`
  abbrev pub return_false_unless : Bool → M S (Unit {0})
  return_false_unless true s h = (next tt, s, h)
  return_false_unless false s h = (return_false, s, h)

  abbrev pub to_result : Exit (Unit {0}) × S × History → Exit Bool × S × History
  to_result (next _, s, h) = (next true, s, h)
  to_result (return_false, s, h) = (next false, s, h)
  to_result (thrown, s, h) = (thrown, s, h)
  to_result (undefined, s, h) = (undefined, s, h)

  -- A whole function: `body`, and then `return true`.
  abbrev pub method : M S (Unit {0}) → M S Bool
  method body s h = to_result (body s h)

module _ {S : Type 0} (env : Env) where
  abbrev pub call : Call → M S Reply
  call c s h = let h' = c ∷ h in (next (env.answer h'), s, h')

  -- RAC_ADVANCE with a last argument that does `on_false` and returns false.
  abbrev pub advance_or : Bool → (S → S) → M S (Unit {0})
  advance_or condition on_false s h =
      if env.rac.goes_on condition then (next tt, s, h) else (return_false, on_false s, h)

  abbrev pub advance : Bool → M S (Unit {0})
  advance condition = advance_or condition (λ s. s)

  -- A call of std::filesystem: a negative answer is an exception.
  abbrev pub call_fs : Call → M S Bool
  call_fs c s h =
      let h' = c ∷ h in
      elim (env.answer h').ret [ pos n ↦ (next (ltb 0 n), s, h') | negsuc n ↦ (thrown, s, h') ]
