-- ===== src/System/Structs.antt =====
-- The structs that onekey_usb_functionfs.hpp, onekey_usb_bootloader_mode.hpp and onekey_usb.hpp fill in.
-- Those of the headers of the kernel and of libusbgx have the fields that the program sets; the values
-- of the headers' constants are parameters.
use firmware_x.Prelude.{ℕ, List}
use firmware_x.Prelude.Int.{ℤ}

-- linux/usb/ch9.h and linux/usb/functionfs.h: the structs that the descriptors are made of.
pub record InterfaceDescriptor : Type 0 where
  pub b_length : ℕ
  pub b_descriptor_type : ℕ
  pub b_interface_number : ℕ
  pub b_num_endpoints : ℕ
  pub b_interface_class : ℕ
  pub b_interface_sub_class : ℕ
  pub b_interface_protocol : ℕ
  pub i_interface : ℕ

pub record EndpointDescriptor : Type 0 where
  pub b_length : ℕ
  pub b_descriptor_type : ℕ
  pub b_endpoint_address : ℕ
  pub bm_attributes : ℕ
  pub w_max_packet_size : ℕ
  pub b_interval : ℕ

pub record SsEpCompDescriptor : Type 0 where
  pub b_length : ℕ
  pub b_descriptor_type : ℕ
  pub b_max_burst : ℕ

pub record ExtCompatDesc : Type 0 where
  pub b_first_interface_number : ℕ
  pub reserved1 : ℕ

pub record OsDescHeader : Type 0 where
  pub interface : ℕ
  pub dw_length : ℕ
  pub bcd_version : ℕ
  pub w_index : ℕ
  pub b_count : ℕ

pub record StringsHead : Type 0 where
  pub magic : ℕ
  pub length : ℕ
  pub str_count : ℕ
  pub lang_count : ℕ

-- The structs of onekey_usb_functionfs.hpp itself.
pub record FuncDesc : Type 0 where
  pub intf : InterfaceDescriptor
  pub source : EndpointDescriptor
  pub sink : EndpointDescriptor

pub record SsFuncDesc : Type 0 where
  pub intf : InterfaceDescriptor
  pub source : EndpointDescriptor
  pub source_comp : SsEpCompDescriptor
  pub sink : EndpointDescriptor
  pub sink_comp : SsEpCompDescriptor

pub record DescV1 : Type 0 where
  pub magic : ℕ
  pub length : ℕ
  pub fs_count : ℕ
  pub hs_count : ℕ
  pub fs_descs : FuncDesc
  pub hs_descs : FuncDesc

pub record DescV2 : Type 0 where
  pub magic : ℕ
  pub length : ℕ
  pub flags : ℕ
  pub fd_eventfd : ℤ
  pub fs_count : ℕ
  pub hs_count : ℕ
  pub ss_count : ℕ
  pub os_count : ℕ
  pub fs_descs : FuncDesc
  pub hs_descs : FuncDesc
  pub os_header : OsDescHeader
  pub os_desc : ExtCompatDesc

pub record FfsStrings : Type 0 where
  pub header : StringsHead
  pub code : ℕ
  pub str1 : List ℕ

-- usbg/usbg.h; a string is the list of its bytes.
pub record GadgetAttrs : Type 0 where
  pub bcd_usb : ℕ
  pub b_device_class : ℕ
  pub b_device_sub_class : ℕ
  pub b_device_protocol : ℕ
  pub b_max_packet_size0 : ℕ
  pub id_vendor : ℕ
  pub id_product : ℕ
  pub bcd_device : ℕ

pub record GadgetStrs : Type 0 where
  pub manufacturer : List ℕ
  pub product : List ℕ
  pub serial : List ℕ

pub record ConfigAttrs : Type 0 where
  pub bm_attributes : ℕ
  pub b_max_power : ℕ

pub record ConfigStrs : Type 0 where
  pub configuration : List ℕ

-- usbg/function/hid.h
pub record HidAttrs : Type 0 where
  pub protocol : ℕ
  pub report_desc : List ℕ
  pub report_length : ℕ
  pub subclass : ℕ

-- Constants and sizes of linux/usb/functionfs.h and linux/usb/ch9.h.
pub record Uapi : Type 0 where
  pub descriptors_magic : ℕ
  pub descriptors_magic_v2 : ℕ
  pub has_fs_desc : ℕ
  pub has_hs_desc : ℕ
  pub has_ss_desc : ℕ
  pub has_ms_os_desc : ℕ
  pub eventfd_flag : ℕ
  pub sizeof_desc_v1 : ℕ
  pub sizeof_desc_v2 : ℕ
  pub sizeof_event : ℕ
  -- `errno` after a call on an endpoint that is gone
  pub enodev : ℕ
  pub dt_interface : ℕ
  pub dt_endpoint : ℕ
  pub dt_ss_endpoint_comp : ℕ
  pub class_vendor_spec : ℕ
  pub dir_in : ℕ
  pub dir_out : ℕ
  pub endpoint_xfer_int : ℕ
  pub endpoint_xfer_bulk : ℕ
  pub strings_magic : ℕ
  pub sizeof_interface_descriptor : ℕ
  pub sizeof_endpoint_descriptor : ℕ
  pub sizeof_ss_ep_comp_descriptor : ℕ
  pub sizeof_os_desc_header : ℕ
  pub sizeof_ext_compat_desc : ℕ
  pub sizeof_strings : ℕ
