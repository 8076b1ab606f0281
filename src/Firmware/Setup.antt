-- ===== src/Firmware/Setup.antt =====
-- What a successful `init` of the class has done.
use firmware_x.Prelude.Int.{ℤ}
use firmware_x.Prelude.{ℕ, zero, suc, drop, refl, ap, Bool, false, ◌≡◌, ◌∷◌, true, none, arith}
use firmware_x.System.{
  usbg_init, usbg_create_gadget, usbg_create_hid_function, usbg_create_plain_config,
  usbg_add_config_function, usbg_enable_gadget, History, Env, next, ◌>>=◌, ◌>>◌, >>=-next,
  method-true, Pointer, M, Exit, return_false, thrown, undefined, to_result,
}
use firmware_x.System.Tidy.{cleaning, cleanups, Tidy, then_run-Tidy}
use firmware_x.Firmware.{
  start, make_gadget, make_function, make_config, add_function, enable_on_udc, Firmware,
  FirmwareLibs, g_attrs, g_strs, c_strs, create_gadget, create_parts, enable_gadget, init,
}

-- What the member `ret` holds when RAC_CUSTOM has run the last `n` of these calls.
abbrev pub ret_after : Env → FirmwareLibs → ℕ → History → ℤ → ℤ
ret_after env libs zero h ret = ret
ret_after env libs (suc n) h ret =
    libs.stored (env.answer h).ret (ret_after env libs n (drop 1 h) ret)

module _ (env : Env) (libs : FirmwareLibs) (t t' : Firmware) (h h' : History) where
  create_gadget-frame :
      create_gadget env libs t h ≡ (next tt, t', h')
      → t' ≡ record t { s = t'.s; g = t'.g; ret = t'.ret }
  unfolding create_gadget
  create_gadget-frame e = ground arith

  create_gadget-calls :
      create_gadget env libs t h ≡ (next tt, t', h')
      → h' ≡ usbg_create_gadget t'.s g_attrs g_strs ∷ usbg_init ∷ h
  unfolding create_gadget
  create_gadget-calls e = ground arith

  create_gadget-ret :
      create_gadget env libs t h ≡ (next tt, t', h') → t'.ret ≡ ret_after env libs 2 h' t.ret
  unfolding create_gadget
  create_gadget-ret e = ground arith

  create_parts-frame :
      create_parts env libs t h ≡ (next tt, t', h')
      → t' ≡ record t { c = t'.c; f_hid = t'.f_hid; ret = t'.ret }
  unfolding create_parts
  create_parts-frame e = ground arith

  create_parts-calls :
      create_parts env libs t h ≡ (next tt, t', h')
      → h' ≡ usbg_create_plain_config t.g c_strs ∷ usbg_create_hid_function t.g t.f_attrs ∷ h
  unfolding create_parts
  create_parts-calls e = ground arith

  create_parts-ret :
      create_parts env libs t h ≡ (next tt, t', h') → t'.ret ≡ ret_after env libs 2 h' t.ret
  unfolding create_parts
  create_parts-ret e = ground arith

  enable_gadget-frame :
      enable_gadget env libs t h ≡ (next tt, t', h') → t' ≡ record t { ret = t'.ret }
  unfolding enable_gadget
  enable_gadget-frame e = ground arith

  enable_gadget-calls :
      enable_gadget env libs t h ≡ (next tt, t', h')
      → h' ≡ usbg_enable_gadget t.g none ∷ usbg_add_config_function t.c t.f_hid ∷ h
  unfolding enable_gadget
  enable_gadget-calls e = ground arith

  enable_gadget-ret :
      enable_gadget env libs t h ≡ (next tt, t', h') → t'.ret ≡ ret_after env libs 2 h' t.ret
  unfolding enable_gadget
  enable_gadget-ret e = ground arith

-- A successful `init`: only the four pointers have changed, and `ret` as RAC_CUSTOM leaves it, and these
-- calls were made.
pub record Enabled (env : Env) (libs : FirmwareLibs) (t t' : Firmware) (h h' : History)
    : Type 0 where
  pub frame : t' ≡ record t { s = t'.s; g = t'.g; c = t'.c; f_hid = t'.f_hid; ret = t'.ret }
  pub member : t'.ret ≡ ret_after env libs 6 h' t.ret
  pub calls :
      h'
      ≡ usbg_enable_gadget t'.g none
        ∷ usbg_add_config_function t'.c t'.f_hid
        ∷ usbg_create_plain_config t'.g c_strs
        ∷ usbg_create_hid_function t'.g t.f_attrs
        ∷ usbg_create_gadget t'.s g_attrs g_strs
        ∷ usbg_init
        ∷ h

init-true :
    (env : Env) (libs : FirmwareLibs) (t t' : Firmware) (h h' : History)
    → init env libs t h ≡ (next true, t', h')
    → Enabled env libs t t' h h'
unfolding init
init-true env libs t t' h h' e =
    let rest = λ (u : Unit {0}). create_parts env libs >> enable_gadget env libs in
    let (_, t1, h1, e1, f1) =
      >>=-next rest t' h' tt (create_gadget env libs) t h
        (method-true t' h' (create_gadget env libs >>= rest) t h e) in
    let (_, t2, h2, e2, f2) =
      >>=-next (λ (u : Unit {0}). enable_gadget env libs) t' h' tt (create_parts env libs) t1 h1
        f1 in
    let gadget = create_gadget-frame env libs t t1 h h1 e1 in
    let parts = create_parts-frame env libs t1 t2 h1 h2 e2 in
    let enabled = enable_gadget-frame env libs t2 t' h2 h' f2 in
    let c1 = create_gadget-calls env libs t t1 h h1 e1 in
    let c2 = create_parts-calls env libs t1 t2 h1 h2 e2 in
    let c3 = enable_gadget-calls env libs t2 t' h2 h' f2 in
    let r1 = create_gadget-ret env libs t t1 h h1 e1 in
    let r2 = create_parts-ret env libs t1 t2 h1 h2 e2 in
    let r3 = enable_gadget-ret env libs t2 t' h2 h' f2 in
    record {
      frame = ground (arith, gadget, parts, enabled);
      calls = ground (arith, gadget, parts, enabled, c1, c2, c3);
      member = ground (arith, c2, c3, r1, r2, r3);
    }

-- The state of the object.
abbrev state : Firmware → Pointer
state t = t.s

module _ (env : Env) (libs : FirmwareLibs) where
  abbrev Tidies : M Firmware (Unit {0}) → Type 0
  Tidies m = (t : Firmware) (h : History) → Tidy state (cleanups h) (m t h)

  start-Tidy : Tidies (start env libs)
  unfolding cleanups
  start-Tidy t h = ground arith

  make_gadget-Tidy : Tidies (make_gadget env libs)
  unfolding cleanups
  make_gadget-Tidy t h = ground arith

  make_function-Tidy : Tidies (make_function env libs)
  unfolding cleanups
  make_function-Tidy t h = ground arith

  make_config-Tidy : Tidies (make_config env libs)
  unfolding cleanups
  make_config-Tidy t h = ground arith

  add_function-Tidy : Tidies (add_function env libs)
  unfolding cleanups
  add_function-Tidy t h = ground arith

  enable_on_udc-Tidy : Tidies (enable_on_udc env libs)
  unfolding cleanups
  enable_on_udc-Tidy t h = ground arith

  create_gadget-Tidy : Tidies (create_gadget env libs)
  unfolding create_gadget
  create_gadget-Tidy t h =
      then_run-Tidy state (make_gadget env libs) (cleanups h) (start env libs t h) make_gadget-Tidy
        (start-Tidy t h)

  create_parts-Tidy : Tidies (create_parts env libs)
  unfolding create_parts
  create_parts-Tidy t h =
      then_run-Tidy state (make_config env libs) (cleanups h) (make_function env libs t h)
        make_config-Tidy (make_function-Tidy t h)

  enable_gadget-Tidy : Tidies (enable_gadget env libs)
  unfolding enable_gadget
  enable_gadget-Tidy t h =
      then_run-Tidy state (enable_on_udc env libs) (cleanups h) (add_function env libs t h)
        enable_on_udc-Tidy (add_function-Tidy t h)

  making : M Firmware (Unit {0})
  making = create_parts env libs >> enable_gadget env libs

  making-Tidy : Tidies making
  unfolding making
  making-Tidy t h =
      then_run-Tidy state (enable_gadget env libs) (cleanups h) (create_parts env libs t h)
        enable_gadget-Tidy (create_parts-Tidy t h)

  -- `init` without its last `return true`.
  body : M Firmware (Unit {0})
  body = create_gadget env libs >> making

  body-Tidy : Tidies body
  unfolding body
  body-Tidy t h =
      then_run-Tidy state making (cleanups h) (create_gadget env libs t h) making-Tidy
        (create_gadget-Tidy t h)

  -- How `init` ends.
  abbrev pub Initialised : Firmware → History → Exit Bool × Firmware × History → Type 0
  Initialised t h (next true, t', h') = Enabled env libs t t' h h'
  Initialised t h (next false, t', h') = cleanups h' ≡ cleaning t'.s (cleanups h)
  Initialised t h (return_false, t', h') = ⊥
  Initialised t h (thrown, t', h') = ⊥
  Initialised t h (undefined, t', h') = ⊥

  ends :
      (t : Firmware) (h : History) (r : Exit (Unit {0}) × Firmware × History)
      → body t h ≡ r
      → Tidy state (cleanups h) r
      → Initialised t h (to_result r)
  unfolding init body making
  ends t h (next u, t', h') e tidy = init-true env libs t t' h h' (ap to_result e)
  ends t h (return_false, t', h') e tidy = tidy
  ends t h (thrown, t', h') e tidy = tidy
  ends t h (undefined, t', h') e tidy = tidy

  -- From any state and whatever libusbgx answers, `init` returns. When it returns true then only the
  -- four pointers of the object have changed, and the member `ret` as far as RAC_CUSTOM of libBzhUtils
  -- writes it for the six calls, and the pointers are those that the six calls were made with,
  -- each once and in this order: the gadget made in the state, the function and the configuration in
  -- the gadget, the one added to the other, and the gadget enabled, on any UDC; the object is not
  -- marked as initialised by it. When it returns false then it has cleaned the state up once, unless
  -- that is null.
  pub firmware_init_lem : (t : Firmware) (h : History) → Initialised t h (init env libs t h)
  unfolding init body making
  firmware_init_lem t h = ends t h (body t h) refl (body-Tidy t h)
