-- ===== src/Functionfs/Names.antt =====
-- onekey_usb_functionfs.hpp, class handler: the accessors that the rest of the program does not call.
use firmware_x.Prelude.{◌≡◌, ℕ, List, [], ◌∷◌, Bool, Outcome, ok, undefined, arith}
use firmware_x.System.{Env, M}
use firmware_x.Functionfs.{
  Handler, Event, bind, unbind, enable, disable, setup, suspend, resume, unknown, read_ctrl,
}

-- The names as bytes: "BIND", "UNBIND", "ENABLE", "DISABLE", "SETUP", "SUSPEND", "RESUME". The array
-- has no entry for another type.
unfoldable pub get_event_name : Event → Outcome (List ℕ)
get_event_name bind = ok (66 ∷ 73 ∷ 78 ∷ 68 ∷ [])
get_event_name unbind = ok (85 ∷ 78 ∷ 66 ∷ 73 ∷ 78 ∷ 68 ∷ [])
get_event_name enable = ok (69 ∷ 78 ∷ 65 ∷ 66 ∷ 76 ∷ 69 ∷ [])
get_event_name disable = ok (68 ∷ 73 ∷ 83 ∷ 65 ∷ 66 ∷ 76 ∷ 69 ∷ [])
get_event_name setup = ok (83 ∷ 69 ∷ 84 ∷ 85 ∷ 80 ∷ [])
get_event_name suspend = ok (83 ∷ 85 ∷ 83 ∷ 80 ∷ 69 ∷ 78 ∷ 68 ∷ [])
get_event_name resume = ok (82 ∷ 69 ∷ 83 ∷ 85 ∷ 77 ∷ 69 ∷ [])
get_event_name (unknown k) = undefined

abbrev pub is_ffs_enabled : Handler → Bool
is_ffs_enabled s = s.ffs_enabled

abbrev pub is_ffs_binded : Handler → Bool
is_ffs_binded s = s.ffs_binded

-- The overload for an array of the size of an event.
abbrev pub read_ctrl_array : Env → List ℕ → M Handler (Bool × List ℕ)
read_ctrl_array env buffer = read_ctrl env buffer

-- Two events of the same name are one.
get_event_name-injective :
    (e f : Event) (name : List ℕ) → get_event_name e ≡ ok name → get_event_name f ≡ ok name → e ≡ f
unfolding get_event_name
get_event_name-injective e f name h k = ground arith
