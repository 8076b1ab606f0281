-- ===== src/Configfs/Setup.antt =====
-- What `init` and `cleanup` of the configfs handle have done when they return.
use firmware_x.Prelude.{◌≡◌, ◌∷◌, true, none, some, arith}
use firmware_x.System.{
  Pointer, usbg_init, usbg_create_gadget, usbg_create_function, usbg_create_config,
  usbg_add_config_function, usbg_get_udc, History, Env, plain, Env-plain, next, ◌>>=◌, ◌>>◌,
  >>=-next, method-true,
}
use firmware_x.System.Tidy.{cleaning}
use firmware_x.Configfs.{ConfigfsHandle, create_gadget, create_parts, find_udc, init}

create_gadget-next :
    (env : Env) (t t' : ConfigfsHandle) (h h' : History)
    → create_gadget (plain env) t h ≡ (next tt, t', h')
    → (t' ≡ record t { s = t'.s; g = t'.g })
      × (h' ≡ usbg_create_gadget t'.s t.g_attrs t.g_strs ∷ usbg_init ∷ h)
unfolding create_gadget
create_gadget-next env t t' h h' e = ground arith

create_parts-next :
    (env : Env) (t t' : ConfigfsHandle) (h h' : History)
    → create_parts (plain env) t h ≡ (next tt, t', h')
    → (t' ≡ record t { c = t'.c; f_ffs_data = t'.f_ffs_data })
      × (h'
          ≡ usbg_add_config_function t'.c t'.f_ffs_data
            ∷ usbg_create_config t.g t.c_attrs t.c_strs
            ∷ usbg_create_function t.g
            ∷ h)
unfolding create_parts
create_parts-next env t t' h h' e = ground arith

-- What follows `usbg_get_udc`.
abbrev pub udc_calls : Pointer → Pointer → History → History
udc_calls s none h = cleaning s (usbg_get_udc s ∷ usbg_get_udc s ∷ h)
udc_calls s (some u) h = usbg_get_udc s ∷ h

find_udc-next :
    (env : Env) (t t' : ConfigfsHandle) (h h' : History)
    → find_udc (plain env) t h ≡ (next tt, t', h')
    → (t' ≡ record t { u = t'.u }) × (h' ≡ udc_calls t.s t'.u h)
unfolding find_udc
find_udc-next env t t' h h' e = ground arith

-- The calls of a successful `init` before that of `usbg_get_udc`.
abbrev pub made_calls : ConfigfsHandle → ConfigfsHandle → History → History
made_calls t t' h =
    usbg_add_config_function t'.c t'.f_ffs_data
    ∷ usbg_create_config t'.g t.c_attrs t.c_strs
    ∷ usbg_create_function t'.g
    ∷ usbg_create_gadget t'.s t.g_attrs t.g_strs
    ∷ usbg_init
    ∷ h

-- A successful `init`: only the five pointers have changed, and these calls were made.
pub record Configured (t t' : ConfigfsHandle) (h h' : History) : Type 0 where
  pub frame : t' ≡ record t { s = t'.s; u = t'.u; g = t'.g; c = t'.c; f_ffs_data = t'.f_ffs_data }
  pub calls : h' ≡ udc_calls t'.s t'.u (made_calls t t' h)

plain-init-true :
    (env : Env) (t t' : ConfigfsHandle) (h h' : History)
    → init (plain env) t h ≡ (next true, t', h')
    → Configured t t' h h'
unfolding init
plain-init-true env t t' h h' e =
    let env' = plain env in
    let rest = λ (u : Unit {0}). create_parts env' >> find_udc env' in
    let (_, t1, h1, e1, f1) =
      >>=-next rest t' h' tt (create_gadget env') t h
        (method-true t' h' (create_gadget env' >>= rest) t h e) in
    let (_, t2, h2, e2, f2) =
      >>=-next (λ (u : Unit {0}). find_udc env') t' h' tt (create_parts env') t1 h1 f1 in
    let gadget = create_gadget-next env t t1 h h1 e1 in
    let parts = create_parts-next env t1 t2 h1 h2 e2 in
    let udc = find_udc-next env t2 t' h2 h' f2 in ground (arith, gadget, parts, udc)

-- When `init` returns true, from any state and whatever libusbgx answers, the handle's pointers are
-- those that the calls were made with: the gadget was made in the state, the function and the
-- configuration in the gadget, and the one was added to the other, each once and in this order. If no
-- UDC was found then it was looked for a second time, and after that the state, unless null, was
-- cleaned up.
pub configfs_init-true :
    (env : Env) (t t' : ConfigfsHandle) (h h' : History)
    → init env t h ≡ (next true, t', h')
    → Configured t t' h h'
configfs_init-true env = rw (Env-plain env) (plain-init-true env)
