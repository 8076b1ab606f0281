-- ===== src/Descriptors/Documented.antt =====
-- What linux/usb/functionfs.h and linux/usb/ch9.h document, as hypotheses on the constants and on the
-- descriptors of onekey_usb_bootloader_mode.hpp.
use firmware_x.Prelude.{◌+◌, ◌*◌, ◌≡◌}
use firmware_x.System.{FuncDesc, Uapi}
use firmware_x.Functionfs.{Handler}

-- The values of the headers' constants, and the sizes of packed structs as the sums of their parts.
pub record Documented (uapi : Uapi) : Type 0 where
  pub has_fs : uapi.has_fs_desc ≡ 1
  pub has_hs : uapi.has_hs_desc ≡ 2
  pub has_ss : uapi.has_ss_desc ≡ 4
  pub has_os : uapi.has_ms_os_desc ≡ 8
  pub has_eventfd : uapi.eventfd_flag ≡ 32
  pub magic_v1 : uapi.descriptors_magic ≡ 1
  pub magic : uapi.descriptors_magic_v2 ≡ 3
  pub strings_magic : uapi.strings_magic ≡ 2
  pub dt_interface : uapi.dt_interface ≡ 4
  pub dt_endpoint : uapi.dt_endpoint ≡ 5
  pub dt_ss_endpoint_comp : uapi.dt_ss_endpoint_comp ≡ 48
  pub dir_in : uapi.dir_in ≡ 128
  pub dir_out : uapi.dir_out ≡ 0
  pub interface_size : uapi.sizeof_interface_descriptor ≡ 9
  pub endpoint_size : uapi.sizeof_endpoint_descriptor ≡ 7
  pub ss_ep_comp_size : uapi.sizeof_ss_ep_comp_descriptor ≡ 6
  pub os_header_size : uapi.sizeof_os_desc_header ≡ 11
  pub ext_compat_size : uapi.sizeof_ext_compat_desc ≡ 24
  -- the name of the interface has nine characters and a zero
  pub strings_size : uapi.sizeof_strings ≡ 4 * 4 + 2 + (9 + 1)
  pub desc_v1_size :
      uapi.sizeof_desc_v1
      ≡ 4 * 4 + 2 * (uapi.sizeof_interface_descriptor + 2 * uapi.sizeof_endpoint_descriptor)
  pub desc_v2_size :
      uapi.sizeof_desc_v2
      ≡ 3 * 4
        + 4
        + 4 * 4
        + 2 * (uapi.sizeof_interface_descriptor + 2 * uapi.sizeof_endpoint_descriptor)
        + uapi.sizeof_os_desc_header
        + uapi.sizeof_ext_compat_desc

-- `bLength` and `dwLength` are the sizes of the structs.
pub record IsSized (uapi : Uapi) (f : FuncDesc) : Type 0 where
  pub intf : f.intf.b_length ≡ uapi.sizeof_interface_descriptor
  pub source : f.source.b_length ≡ uapi.sizeof_endpoint_descriptor
  pub sink : f.sink.b_length ≡ uapi.sizeof_endpoint_descriptor

pub record IsHandlerSized (uapi : Uapi) (s : Handler) : Type 0 where
  pub fs : IsSized uapi s.fs_descriptors
  pub hs : IsSized uapi s.hs_descriptors
  pub os : s.os_desc_header.dw_length ≡ uapi.sizeof_os_desc_header + uapi.sizeof_ext_compat_desc
