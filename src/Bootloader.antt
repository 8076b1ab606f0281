-- ===== src/Bootloader.antt =====
-- onekey_usb_bootloader_mode.hpp: the descriptors, and class BOOTLOADER with its init and cleanup. A
-- string is its ASCII codes. The target is little-endian, so that cpu_to_le16 and cpu_to_le32 change
-- nothing.
pub mod SuperSpeed
pub mod Setup
pub mod Written
pub mod Traffic
pub mod Pipes
pub mod Failure
pub mod Takedown
pub mod Lifetime
pub mod Partial
pub mod Service
pub mod Sample
mod Examples
use Prim.Native.Nat.{bit_or}
use firmware_x.Prelude.{ℕ, ◌+◌, ◌/◌, List, [], ◌∷◌, ◌++◌, Bool, replicate}
use firmware_x.Prelude.Int.{ℤ, pos}
use firmware_x.System.{
  InterfaceDescriptor, EndpointDescriptor, FuncDesc, ExtCompatDesc, OsDescHeader, FfsStrings,
  GadgetAttrs, GadgetStrs, ConfigAttrs, ConfigStrs, Env, Uapi, M, Exit, History, ◌>>=◌, ◌>>◌,
  modify, advance, method,
}
use firmware_x.Functionfs.{Handler, aio_set_timeout}
use firmware_x.Functionfs.Lifecycle
use firmware_x.Configfs
use firmware_x.Configfs.{ConfigfsHandle}
use firmware_x.Protocol.Parser.{Parser}
use firmware_x.Protocol.Composer.{Composer}

abbrev pub g_attrs : GadgetAttrs
g_attrs = record {
  bcd_usb = 0x0210;
  b_device_class = 0;
  b_device_sub_class = 0;
  b_device_protocol = 0;
  b_max_packet_size0 = 64;
  id_vendor = 0x1209;
  id_product = 0x53c0;
  bcd_device = 0x0200;
}

-- "OneKey"
abbrev onekey : List ℕ
onekey = 79 ∷ 110 ∷ 101 ∷ 75 ∷ 101 ∷ 121 ∷ []

-- INTERFACE_STR, "OneKeyUSB"
abbrev pub onekey_usb : List ℕ
onekey_usb = onekey ++ 85 ∷ 83 ∷ 66 ∷ []

abbrev pub g_strs : GadgetStrs
g_strs = record { manufacturer = onekey; product = onekey; serial = replicate 24 48 }

abbrev pub c_strs : ConfigStrs
c_strs = record { configuration = onekey_usb }

-- CONFIG_DESC_MAXPOWER_mA
abbrev pub config_desc_maxpower_ma : ℕ → ℕ
config_desc_maxpower_ma x = (x + 1) / 2

abbrev pub c_attrs : ConfigAttrs
c_attrs = record { bm_attributes = 0x80; b_max_power = config_desc_maxpower_ma 500 }

-- functionfs::MAX_PACKET_SIZE_FS
abbrev pub max_packet_size_fs : ℕ
max_packet_size_fs = 64

module _ (uapi : Uapi) where
  abbrev pub intf : InterfaceDescriptor
  intf = record {
    b_length = uapi.sizeof_interface_descriptor;
    b_descriptor_type = uapi.dt_interface;
    b_interface_number = 0;
    b_num_endpoints = 2;
    b_interface_class = uapi.class_vendor_spec;
    b_interface_sub_class = 0;
    b_interface_protocol = 0;
    i_interface = 1;
  }

  -- `source` and `sink`, which differ in the direction only.
  abbrev pub endpoint : ℕ → EndpointDescriptor
  endpoint dir = record {
    b_length = uapi.sizeof_endpoint_descriptor;
    b_descriptor_type = uapi.dt_endpoint;
    b_endpoint_address = bit_or 1 dir;
    bm_attributes = uapi.endpoint_xfer_int;
    w_max_packet_size = max_packet_size_fs;
    b_interval = 1;
  }

  abbrev pub fs_descriptors : FuncDesc
  fs_descriptors = record {
    intf = intf;
    source = endpoint uapi.dir_in;
    sink = endpoint uapi.dir_out;
  }

  abbrev pub hs_descriptors : FuncDesc
  hs_descriptors = fs_descriptors

  abbrev pub os_desc_compat : ExtCompatDesc
  os_desc_compat = record { b_first_interface_number = 0; reserved1 = 1 }

  abbrev pub os_desc_header : OsDescHeader
  os_desc_header = record {
    interface = 1;
    dw_length = uapi.sizeof_os_desc_header + uapi.sizeof_ext_compat_desc;
    bcd_version = 1;
    w_index = 4;
    b_count = 1;
  }

  abbrev pub strings : FfsStrings
  strings = record {
    header = record {
      magic = uapi.strings_magic;
      length = uapi.sizeof_strings;
      str_count = 1;
      lang_count = 1;
    };
    code = 0x0409;
    str1 = onekey_usb ++ 0 ∷ [];
  }

pub record Bootloader : Type 0 where
  pub cfs_h : ConfigfsHandle
  pub ffs_h : Handler
  pub parser_h : Parser
  pub composer_h : Composer
  pub usb_timeout_ms : ℤ

-- A member function of one of the two parts.
abbrev pub with_cfs :
    {A : Type 0} → Bootloader → Exit A × ConfigfsHandle × History → Exit A × Bootloader × History
with_cfs b (r, t, h) = (r, record b { cfs_h = t }, h)

abbrev pub on_cfs : {A : Type 0} → M ConfigfsHandle A → M Bootloader A
on_cfs m b h = with_cfs b (m b.cfs_h h)

abbrev pub with_ffs :
    {A : Type 0} → Bootloader → Exit A × Handler × History → Exit A × Bootloader × History
with_ffs b (r, s, h) = (r, record b { ffs_h = s }, h)

abbrev pub on_ffs : {A : Type 0} → M Handler A → M Bootloader A
on_ffs m b h = with_ffs b (m b.ffs_h h)

module _ (env : Env) where
  abbrev pub configure_cfs : ConfigfsHandle → ConfigfsHandle
  configure_cfs t = record t {
    g_attrs = g_attrs;
    g_strs = g_strs;
    c_attrs = c_attrs;
    c_strs = c_strs;
  }

  abbrev pub configure_ffs : Handler → Handler
  configure_ffs s = aio_set_timeout (pos 8000) (record s {
    fs_descriptors = fs_descriptors env.uapi;
    hs_descriptors = hs_descriptors env.uapi;
    os_desc_compat = os_desc_compat env.uapi;
    os_desc_header = os_desc_header env.uapi;
    strings = strings env.uapi;
  })

  -- The assignments to the members of `cfs_h` and `ffs_h`.
  abbrev pub configure : Bootloader → Bootloader
  configure b = record b { cfs_h = configure_cfs b.cfs_h; ffs_h = configure_ffs b.ffs_h }

  unfoldable pub init : M Bootloader Bool
  init = method (do
    modify configure
    configured ← on_cfs (Configfs.init env)
    advance env configured
    mounted ← on_ffs (Lifecycle.init env)
    advance env mounted
    enabled ← on_cfs (Configfs.enable env)
    advance env enabled)

  unfoldable pub cleanup : M Bootloader Bool
  cleanup = method (do
    disabled ← on_cfs (Configfs.disable env)
    advance env disabled
    unmounted ← on_ffs (Lifecycle.cleanup env)
    advance env unmounted
    removed ← on_cfs (Configfs.cleanup env)
    advance env removed)
