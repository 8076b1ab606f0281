-- ===== src/Firmware.antt =====
-- onekey_usb.hpp, class ONEKEY_USB_FIRMWARE, over libusbgx. No other file includes it. `DEFAULT_UDC` is
-- a null pointer. The members `usbg_ret` and `c_attrs`, which nothing reads, are left out.
pub mod Lifetime
pub mod Setup
mod Examples
use firmware_x.Prelude.{
  ℕ, zero, suc, List, [], ◌∷◌, ◌++◌, Bool, true, false, none, some, if◌then◌else◌,
}
use firmware_x.Prelude.Int.{ℤ, pos, negsuc, is_nat}
use firmware_x.System.{
  GadgetAttrs, GadgetStrs, ConfigStrs, HidAttrs, Pointer, Reply, usbg_init, usbg_create_gadget,
  usbg_create_hid_function, usbg_create_plain_config, usbg_add_config_function, usbg_enable_gadget,
  usbg_cleanup, return_false, next, Env, M, pure, gets, ◌>>=◌, ◌>>◌, modify, call, method,
}

pub record Firmware : Type 0 where
  pub is_inited : Bool
  pub s : Pointer
  pub g : Pointer
  pub c : Pointer
  pub f_hid : Pointer
  pub ret : ℤ
  pub f_attrs : HidAttrs

abbrev pub g_attrs : GadgetAttrs
g_attrs = record {
  bcd_usb = 0x0200;
  b_device_class = 0;
  b_device_sub_class = 0;
  b_device_protocol = 0;
  b_max_packet_size0 = 64;
  id_vendor = 0x1209;
  id_product = 0x53c1;
  bcd_device = 0x0200;
}

-- "OneKey"
abbrev onekey : List ℕ
onekey = 79 ∷ 110 ∷ 101 ∷ 75 ∷ 101 ∷ 121 ∷ []

-- "71CD44D932F174C92E5530FA"
abbrev serial : List ℕ
serial =
    55 ∷ 49 ∷ 67 ∷ 68 ∷ 52 ∷ 52 ∷ 68 ∷ 57 ∷ 51 ∷ 50 ∷ 70 ∷ 49 ∷ 55 ∷ 52 ∷ 67 ∷ 57 ∷ 50 ∷ 69 ∷ 53
    ∷ 53 ∷ 51 ∷ 48 ∷ 70 ∷ 65 ∷ []

abbrev pub g_strs : GadgetStrs
g_strs = record { manufacturer = onekey; product = onekey; serial = serial }

-- "1xHID"
abbrev pub c_strs : ConfigStrs
c_strs = record { configuration = 49 ∷ 120 ∷ 72 ∷ 73 ∷ 68 ∷ [] }

-- From outside: the bytes of TinyUSB's TUD_HID_REPORT_DESC_FIDO_U2F(64); the number of EINVAL; and, for
-- RAC_CUSTOM of libBzhUtils, by the result of the call and by the member `ret`: what the name `ret`
-- stands for where it runs RAC_CHECK_LOGIC, and what the member then holds, in case it writes that.
pub record FirmwareLibs : Type 0 where
  pub fido_report_desc : List ℕ
  pub einval : ℕ
  pub checked : ℤ → ℤ → ℤ
  pub stored : ℤ → ℤ → ℤ

abbrev pub negate : ℕ → ℤ
negate zero = pos 0
negate (suc n) = negsuc n

module _ (env : Env) (libs : FirmwareLibs) where
  -- The constructor.
  abbrev pub construct : Firmware
  construct = record {
    is_inited = false;
    s = none;
    g = none;
    c = none;
    f_hid = none;
    ret = negate libs.einval;
    f_attrs = record {
      protocol = 0;
      report_desc = libs.fido_report_desc;
      report_length = 64;
      subclass = 0;
    };
  }

  abbrev cleanup_state : Pointer → M Firmware (Unit {0})
  cleanup_state none = pure tt
  cleanup_state (some p) = do done ← call env (usbg_cleanup p); pure tt

  abbrev returns_false : M Firmware (Unit {0})
  returns_false t h = (return_false, t, h)

  -- RAC_CHECK_LOGIC, where RAC_CUSTOM runs it.
  abbrev pub check_logic : Reply → M Firmware (Unit {0})
  check_logic r t h =
      let u = record t { ret = libs.stored r.ret t.ret } in
      if is_nat 0 (libs.checked r.ret t.ret)
      then (next tt, u, h)
      else (cleanup_state u.s >> returns_false) u h

  -- What an out parameter holds after the call.
  abbrev pub out : Reply → Pointer → Pointer
  out r old = if is_nat 0 r.ret then r.object else old

  -- The six calls of `init`, each in its RAC_CUSTOM.
  abbrev pub start : M Firmware (Unit {0})
  start = do
    started ← call env usbg_init
    modify (λ t. record t { s = out started t.s })
    check_logic started

  abbrev pub make_gadget : M Firmware (Unit {0})
  make_gadget = do
    t ← gets (λ t. t)
    made ← call env (usbg_create_gadget t.s g_attrs g_strs)
    modify (λ t. record t { g = out made t.g })
    check_logic made

  abbrev pub make_function : M Firmware (Unit {0})
  make_function = do
    t ← gets (λ t. t)
    function ← call env (usbg_create_hid_function t.g t.f_attrs)
    modify (λ t. record t { f_hid = out function t.f_hid })
    check_logic function

  abbrev pub make_config : M Firmware (Unit {0})
  make_config = do
    t ← gets (λ t. t)
    config ← call env (usbg_create_plain_config t.g c_strs)
    modify (λ t. record t { c = out config t.c })
    check_logic config

  abbrev pub add_function : M Firmware (Unit {0})
  add_function = do
    t ← gets (λ t. t)
    added ← call env (usbg_add_config_function t.c t.f_hid)
    check_logic added

  abbrev pub enable_on_udc : M Firmware (Unit {0})
  enable_on_udc = do
    t ← gets (λ t. t)
    enabled ← call env (usbg_enable_gadget t.g none)
    check_logic enabled

  unfoldable pub create_gadget : M Firmware (Unit {0})
  create_gadget = do start; make_gadget

  unfoldable pub create_parts : M Firmware (Unit {0})
  create_parts = do make_function; make_config

  unfoldable pub enable_gadget : M Firmware (Unit {0})
  enable_gadget = do add_function; enable_on_udc

  unfoldable pub init : M Firmware Bool
  init = method (do create_gadget; create_parts; enable_gadget)

  -- `usbg_cleanup(s)` is called whatever `s` is; null is number 0.
  abbrev address : Pointer → ℕ
  address none = 0
  address (some p) = p

  cleanup_if : Bool → M Firmware Bool
  cleanup_if false = pure true
  cleanup_if true = do
    t ← gets (λ t. t)
    done ← call env (usbg_cleanup (address t.s))
    modify (λ t. record t { is_inited = false })
    pure true

  unfoldable pub cleanup : M Firmware Bool
  unfolding cleanup_if
  cleanup = do inited ← gets (λ t. t.is_inited); cleanup_if inited

  -- The destructor.
  abbrev pub destroy : M Firmware Bool
  destroy = cleanup
