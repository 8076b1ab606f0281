-- ===== src/Firmware/Lifetime.antt =====
-- What an object of the class does from its constructor to its destructor.
use firmware_x.Prelude.{◌≡◌, ◌∙◌, refl, ap, List, [], ◌∷◌, Bool, true, false, arith}
use firmware_x.System.{
  History, Exit, next, Env, Rel, Keeps, Preorder, ◌>>=◌, ◌>>◌, >>=-Keeps, to_result, return_false,
  thrown, undefined,
}
use firmware_x.Firmware.{
  Firmware, FirmwareLibs, construct, create_gadget, create_parts, enable_gadget, init, cleanup,
  destroy,
}

-- The mark of initialisation is as before.
abbrev Unmarked : Rel Firmware
Unmarked t h t' h' = t'.is_inited ≡ t.is_inited

Unmarked-Preorder : Preorder Unmarked
Unmarked-Preorder = record { reflexive = λ t h. refl; transitive = λ t u v h i j p q. q ∙ p }

to_result-Unmarked :
    (t : Firmware) (r : Exit (Unit {0}) × Firmware × History)
    → r.1.is_inited ≡ t.is_inited
    → (to_result r).1.is_inited ≡ t.is_inited
to_result-Unmarked t (next u, v, i) e = e
to_result-Unmarked t (return_false, v, i) e = e
to_result-Unmarked t (thrown, v, i) e = e
to_result-Unmarked t (undefined, v, i) e = e

pub data Use : Type 0 where
  initialise clean_up : Use

module _ (env : Env) (libs : FirmwareLibs) where
  create_gadget-Unmarked : Keeps Unmarked (create_gadget env libs)
  unfolding create_gadget
  create_gadget-Unmarked t h = ground arith

  create_parts-Unmarked : Keeps Unmarked (create_parts env libs)
  unfolding create_parts
  create_parts-Unmarked t h = ground arith

  enable_gadget-Unmarked : Keeps Unmarked (enable_gadget env libs)
  unfolding enable_gadget
  enable_gadget-Unmarked t h = ground arith

  init-Unmarked : Keeps Unmarked (init env libs)
  unfolding init
  init-Unmarked t h =
      let rest = λ (u : Unit {0}). create_parts env libs >> enable_gadget env libs in
      let rest_kept : (u : Unit {0}) → Keeps Unmarked (rest u) = λ u.
        >>=-Keeps Unmarked Unmarked-Preorder (λ (v : Unit {0}). enable_gadget env libs)
          (λ v. enable_gadget-Unmarked) (create_parts env libs) create_parts-Unmarked in
      to_result-Unmarked t ((create_gadget env libs >>= rest) t h) (
        >>=-Keeps Unmarked Unmarked-Preorder rest rest_kept (create_gadget env libs)
          create_gadget-Unmarked t h)

  cleanup-unmarked :
      (t : Firmware) (h : History) → t.is_inited ≡ false → cleanup env libs t h ≡ (next true, t, h)
  unfolding cleanup
  cleanup-unmarked t h e = rw e

  -- The uses of an object, one after the other, with the calls made.
  unfoldable pub run_uses : List Use → Firmware → History → Firmware × History
  run_uses [] t h = (t, h)
  run_uses (initialise ∷ us) t h = let r = init env libs t h in run_uses us r.1 r.2
  run_uses (clean_up ∷ us) t h = let r = cleanup env libs t h in run_uses us r.1 r.2

  run_uses-unmarked :
      (us : List Use) (t : Firmware) (h : History)
      → t.is_inited ≡ false
      → (run_uses us t h).0.is_inited ≡ false
  unfolding run_uses
  run_uses-unmarked [] t h e = e
  run_uses-unmarked (initialise ∷ us) t h e =
      let r = init env libs t h in run_uses-unmarked us r.1 r.2 (init-Unmarked t h ∙ e)
  run_uses-unmarked (clean_up ∷ us) t h e =
      let r = cleanup env libs t h in
      let same = cleanup-unmarked t h e in
      run_uses-unmarked us r.1 r.2
        (ap (λ (x : Exit Bool × Firmware × History). x.1.is_inited) same ∙ e)

  -- From the constructor on, in every sequence of calls of `init` and `cleanup`, and whatever libusbgx
  -- answers: the object is never marked as initialised, so that `cleanup`, and the destructor with it,
  -- returns true and makes no call. What a successful `init` has made is not cleaned up.
  pub destroy_does_nothing :
      (us : List Use)
      → let t = run_uses us (construct env libs) [] in
        (t.0.is_inited ≡ false) × (destroy env libs t.0 t.1 ≡ (next true, t.0, t.1))
  destroy_does_nothing us =
      let t = run_uses us (construct env libs) [] in
      let unmarked = run_uses-unmarked us (construct env libs) [] refl in
      (unmarked, cleanup-unmarked t.0 t.1 unmarked)
