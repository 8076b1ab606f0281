-- ===== src/Configfs.antt =====
-- onekey_usb_configfs.hpp, class configfs_handle, over libusbgx. USBG_SUCCESS is 0. A call that has
-- failed leaves the pointer that its last argument points to. The paths and names passed are constants.
pub mod Setup
pub mod Tidy
pub mod Sample
mod Examples
use firmware_x.Prelude.{ℕ, ◌≡◌, Bool, none, some, if◌then◌else◌}
use firmware_x.Prelude.Int.{is_nat}
use firmware_x.System.{
  GadgetAttrs, GadgetStrs, ConfigAttrs, ConfigStrs, Pointer, Reply, usbg_init, usbg_create_gadget,
  usbg_create_function, usbg_create_config, usbg_add_config_function, usbg_get_udc, usbg_rm_gadget,
  usbg_enable_gadget, usbg_disable_gadget, usbg_cleanup, return_false, next, Env, M, pure, gets,
  ◌>>=◌, ◌>>◌, modify, call, method,
}

pub record ConfigfsHandle : Type 0 where
  pub g_attrs : GadgetAttrs
  pub g_strs : GadgetStrs
  pub c_strs : ConfigStrs
  pub c_attrs : ConfigAttrs
  pub s : Pointer
  pub u : Pointer
  pub g : Pointer
  pub c : Pointer
  pub f_ffs_data : Pointer

module _ (env : Env) where
  -- `if ( s != nullptr ) { usbg_cleanup(s); }`
  abbrev pub cleanup_state : Pointer → M ConfigfsHandle (Unit {0})
  cleanup_state none = pure tt
  cleanup_state (some p) = do done ← call env (usbg_cleanup p); pure tt

  abbrev returns_false : M ConfigfsHandle (Unit {0})
  returns_false t h = (return_false, t, h)

  -- RAC_ADVANCE on a call's result, with RAC_ON_FALSE_USBGX.
  abbrev pub check_usbgx : Reply → M ConfigfsHandle (Unit {0})
  check_usbgx r t h =
      if env.rac.goes_on (is_nat 0 r.ret)
      then (next tt, t, h)
      else (cleanup_state t.s >> returns_false) t h

  -- What an out parameter holds after the call.
  abbrev pub out : Reply → Pointer → Pointer
  out r old = if is_nat 0 r.ret then r.object else old

  unfoldable pub create_gadget : M ConfigfsHandle (Unit {0})
  create_gadget = do
    started ← call env usbg_init
    modify (λ t. record t { s = out started t.s })
    check_usbgx started
    t ← gets (λ t. t)
    made ← call env (usbg_create_gadget t.s t.g_attrs t.g_strs)
    modify (λ t. record t { g = out made t.g })
    check_usbgx made

  unfoldable pub create_parts : M ConfigfsHandle (Unit {0})
  create_parts = do
    t ← gets (λ t. t)
    function ← call env (usbg_create_function t.g)
    modify (λ t. record t { f_ffs_data = out function t.f_ffs_data })
    check_usbgx function
    config ← call env (usbg_create_config t.g t.c_attrs t.c_strs)
    modify (λ t. record t { c = out config t.c })
    check_usbgx config
    bound ← gets (λ t. t)
    added ← call env (usbg_add_config_function bound.c bound.f_ffs_data)
    check_usbgx added

  -- A null pointer is logged after a second call of `usbg_get_udc`, and the function goes on.
  abbrev missing_udc : Pointer → M ConfigfsHandle (Unit {0})
  missing_udc (some u) = pure tt
  missing_udc none = do t ← gets (λ t. t); again ← call env (usbg_get_udc t.s); cleanup_state t.s

  unfoldable pub find_udc : M ConfigfsHandle (Unit {0})
  find_udc = do
    t ← gets (λ t. t)
    found ← call env (usbg_get_udc t.s)
    modify (λ t. record t { u = found.object })
    missing_udc found.object

  unfoldable pub init : M ConfigfsHandle Bool
  init = method (do create_gadget; create_parts; find_udc)

  unfoldable pub cleanup : M ConfigfsHandle Bool
  cleanup = method (do
    t ← gets (λ t. t)
    removed ← call env (usbg_rm_gadget t.g)
    check_usbgx removed
    cleanup_state t.s)

  unfoldable pub enable : M ConfigfsHandle Bool
  enable =
      method
        (do t ← gets (λ t. t); enabled ← call env (usbg_enable_gadget t.g t.u); check_usbgx enabled)

  unfoldable pub disable : M ConfigfsHandle Bool
  disable =
      method
        (do t ← gets (λ t. t); disabled ← call env (usbg_disable_gadget t.g); check_usbgx disabled)
