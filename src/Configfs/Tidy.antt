-- ===== src/Configfs/Tidy.antt =====
-- When the state of libusbgx is cleaned up.
use firmware_x.Prelude.{
  ◌≡◌, ℕ, subst, List, ◌∷◌, Bool, true, false, none, some, arith, if◌then◌else◌,
}
use firmware_x.Prelude.Int.{is_nat}
use firmware_x.System.{
  Pointer, Call, usbg_cleanup, History, Env, plain, Env-plain, next, Exit, return_false, thrown,
  undefined, then_run, to_result, M, ◌>>◌, usbg_enable_gadget, usbg_get_udc, usbg_rm_gadget,
}
use firmware_x.System.Tidy.{cleaning, cleanups, Tidy}
use firmware_x.Configfs.{
  ConfigfsHandle, create_gadget, create_parts, find_udc, init, cleanup, enable,
}
use firmware_x.Configfs.Setup.{configfs_init-true, made_calls}

-- The state of the handle.
abbrev state : ConfigfsHandle → Pointer
state t = t.s

create_gadget-Tidy :
    (env : Env) (t : ConfigfsHandle) (h : History)
    → Tidy state (cleanups h) (create_gadget (plain env) t h)
unfolding create_gadget cleanups
create_gadget-Tidy env t h = ground arith

create_parts-Tidy :
    (env : Env) (t : ConfigfsHandle) (h : History)
    → Tidy state (cleanups h) (create_parts (plain env) t h)
unfolding create_parts cleanups
create_parts-Tidy env t h = ground arith

-- How the whole of `init` ends: it returns, and it has cleaned up if it returns false, or if it
-- returns true with no UDC.
abbrev pub Tidied : List Call → Exit Bool × ConfigfsHandle × History → Type 0
Tidied before (next true, t, h) =
    cleanups h ≡ elim t.u [ none ↦ cleaning t.s before | some u ↦ before ]
Tidied before (next false, t, h) = cleanups h ≡ cleaning t.s before
Tidied before (return_false, t, h) = ⊥
Tidied before (thrown, t, h) = ⊥
Tidied before (undefined, t, h) = ⊥

abbrev Finishes : M ConfigfsHandle (Unit {0}) → Type 0
Finishes m = (t : ConfigfsHandle) (h : History) → Tidied (cleanups h) (to_result (m t h))

find_udc-Finishes : (env : Env) → Finishes (find_udc (plain env))
unfolding find_udc cleanups
find_udc-Finishes env t h = ground arith

-- A piece before one that finishes.
then_run-Tidied :
    (rest : M ConfigfsHandle (Unit {0})) (before : List Call)
    (r : Exit (Unit {0}) × ConfigfsHandle × History)
    → Finishes rest
    → Tidy state before r
    → Tidied before (to_result (then_run r (λ u. rest)))
then_run-Tidied rest before (next u, t, h) finishes tidy =
    subst (λ b. Tidied b (to_result (rest t h))) tidy (finishes t h)
then_run-Tidied rest before (return_false, t, h) finishes tidy = tidy
then_run-Tidied rest before (thrown, t, h) finishes tidy = tidy
then_run-Tidied rest before (undefined, t, h) finishes tidy = tidy

plain-init-Tidied :
    (env : Env) (t : ConfigfsHandle) (h : History) → Tidied (cleanups h) (init (plain env) t h)
unfolding init
plain-init-Tidied env t h =
    let parts : Finishes (create_parts (plain env) >> find_udc (plain env)) = λ t h.
      then_run-Tidied (find_udc (plain env)) (cleanups h) (create_parts (plain env) t h)
        (find_udc-Finishes env) (create_parts-Tidy env t h) in
    then_run-Tidied (create_parts (plain env) >> find_udc (plain env)) (cleanups h)
      (create_gadget (plain env) t h) parts (create_gadget-Tidy env t h)

-- From any state and whatever libusbgx answers, `init` returns, and cleans the state up at most once:
-- it does so, unless the state is null, when it returns false, and also when it returns true with
-- the UDC null; it does not when it returns true with a UDC.
pub configfs_init-Tidied :
    (env : Env) (t : ConfigfsHandle) (h : History) → Tidied (cleanups h) (init env t h)
configfs_init-Tidied env = rw (Env-plain env) (plain-init-Tidied env)

plain-enable_calls :
    (env : Env) (t : ConfigfsHandle) (h : History)
    → let used = usbg_enable_gadget t.g t.u ∷ h in
      (enable (plain env) t h).2
      ≡ (if is_nat 0 (env.answer used).ret then used else cleaning t.s used)
unfolding enable
plain-enable_calls env t h = ground arith

enable_calls :
    (env : Env) (t : ConfigfsHandle) (h : History)
    → let used = usbg_enable_gadget t.g t.u ∷ h in
      (enable env t h).2 ≡ (if is_nat 0 (env.answer used).ret then used else cleaning t.s used)
enable_calls env = rw (Env-plain env) (plain-enable_calls env)

-- The calls after those of `made_calls`, when there is no UDC and the state is `p`.
abbrev pub cleaned_calls : ℕ → History → History
cleaned_calls p h = usbg_cleanup p ∷ usbg_get_udc (some p) ∷ usbg_get_udc (some p) ∷ h

-- When `init` returns true but has found no UDC, its state not null, then `enable` afterwards passes
-- to libusbgx the gadget of a state that is cleaned up already, and a null UDC; if that call fails
-- then the state is cleaned up for a second time.
pub enable_after_cleanup :
    (env : Env) (t t' : ConfigfsHandle) (h h' : History) (p : ℕ)
    → init env t h ≡ (next true, t', h')
    → t'.s ≡ some p
    → t'.u ≡ none
    → let used = usbg_enable_gadget t'.g none ∷ cleaned_calls p (made_calls t t' h) in
      (enable env t' h').2
      ≡ (if is_nat 0 (env.answer used).ret then used else usbg_cleanup p ∷ used)
enable_after_cleanup env t t' h h' p e s u =
    let c = configfs_init-true env t t' h h' e in
    let calls : h' ≡ cleaned_calls p (made_calls t t' h) = ground (arith, c.calls) in
    rw (enable_calls env t' h', calls, s, u)

plain-cleanup_lem :
    (env : Env) (t : ConfigfsHandle) (h : History)
    → ((cleanup (plain env) t h).1 ≡ t)
      × ((cleanup (plain env) t h).2 ≡ cleaning t.s (usbg_rm_gadget t.g ∷ h))
unfolding cleanup
plain-cleanup_lem env t h = ground arith

pub cleanup_lem :
    (env : Env) (t : ConfigfsHandle) (h : History)
    → ((cleanup env t h).1 ≡ t) × ((cleanup env t h).2 ≡ cleaning t.s (usbg_rm_gadget t.g ∷ h))
cleanup_lem env = rw (Env-plain env) (plain-cleanup_lem env)

cleanups-cleaning :
    (s g : Pointer) (h : History)
    → cleanups (cleaning s (usbg_rm_gadget g ∷ h)) ≡ cleaning s (cleanups h)
unfolding cleanups
cleanups-cleaning s g h = ground arith

-- A round of the handle: `init` returns true, and `cleanup` runs later, whether it returns true or
-- false. With a UDC found the state of `init` is cleaned up just once; with none, twice. The handle
-- keeps its pointers to what is gone.
pub configfs_round :
    (env : Env) (t t1 : ConfigfsHandle) (h h1 : History)
    → init env t h ≡ (next true, t1, h1)
    → ((cleanup env t1 h1).1 ≡ t1)
      × (cleanups (cleanup env t1 h1).2 ≡ elim t1.u [
        | none ↦ cleaning t1.s (cleaning t1.s (cleanups h))
        | some u ↦ cleaning t1.s (cleanups h)
      ])
configfs_round env t t1 h h1 e =
    let (same, calls) = cleanup_lem env t1 h1 in
    let tidied = subst (Tidied (cleanups h)) e (configfs_init-Tidied env t h) in
    (same, rw (calls, cleanups-cleaning t1.s t1.g h1) (ground (arith, tidied)))
