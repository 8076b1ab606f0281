-- ===== src/Descriptors.antt =====
-- The packed structs of onekey_usb_functionfs.hpp as the bytes that the program writes to the control
-- file. The target is little-endian. What the structs of linux/usb/ch9.h and linux/usb/functionfs.h hold
-- behind their documented first fields is a parameter.
pub mod Format
pub mod ByteOrder
pub mod Reading
pub mod Documented
pub mod Sizes
pub mod Written
pub mod RoundTrip
pub mod VersionOne
pub mod SuperSpeed
pub mod Strings
pub mod Files
pub mod Sample
mod Examples
use firmware_x.Prelude.{ℕ, ◌+◌, ◌-◌, ◌*◌, ◌%◌, ◌^◌, ◌≡◌, List, [], ◌∷◌, ◌++◌, length, concat}
use firmware_x.Prelude.Int.{ℤ, pos, negsuc}
use firmware_x.Protocol.{byte_of}
use firmware_x.System.{
  InterfaceDescriptor, EndpointDescriptor, SsEpCompDescriptor, SsFuncDesc, DescV1, ExtCompatDesc,
  OsDescHeader, FuncDesc, DescV2, FfsStrings, Uapi,
}

-- A __le16 and a __le32 in memory.
unfoldable pub le16 : ℕ → List ℕ
le16 n = byte_of n 0 ∷ byte_of n 1 ∷ []

unfoldable pub le32 : ℕ → List ℕ
le32 n = byte_of n 0 ∷ byte_of n 1 ∷ byte_of n 2 ∷ byte_of n 3 ∷ []

-- An `int` that is assigned to a __le32.
abbrev pub to_u32 : ℤ → ℕ
to_u32 (pos n) = n % 2 ^ 32
to_u32 (negsuc n) = 2 ^ 32 - 1 - n % 2 ^ 32

-- From outside: the bytes of the kernel's structs behind the documented first fields, and the size of
-- each struct.
pub record Layout (uapi : Uapi) : Type 0 where
  -- behind bLength and bDescriptorType
  pub interface_payload : InterfaceDescriptor → List ℕ
  -- behind bEndpointAddress
  pub endpoint_payload : EndpointDescriptor → List ℕ
  -- behind bLength and bDescriptorType
  pub ss_ep_comp_payload : SsEpCompDescriptor → List ℕ
  -- behind interface and dwLength
  pub os_header_payload : OsDescHeader → List ℕ
  pub ext_compat : ExtCompatDesc → List ℕ
  pub interface_size :
      (d : InterfaceDescriptor)
      → 2 + length (interface_payload d) ≡ uapi.sizeof_interface_descriptor
  pub endpoint_size :
      (d : EndpointDescriptor) → 3 + length (endpoint_payload d) ≡ uapi.sizeof_endpoint_descriptor
  pub ss_ep_comp_size :
      (d : SsEpCompDescriptor)
      → 2 + length (ss_ep_comp_payload d) ≡ uapi.sizeof_ss_ep_comp_descriptor
  pub os_header_size :
      (d : OsDescHeader) → 5 + length (os_header_payload d) ≡ uapi.sizeof_os_desc_header
  pub ext_compat_size : (d : ExtCompatDesc) → length (ext_compat d) ≡ uapi.sizeof_ext_compat_desc

module _ {uapi : Uapi} (layout : Layout uapi) where
  unfoldable pub interface_bytes : InterfaceDescriptor → List ℕ
  interface_bytes d = d.b_length ∷ d.b_descriptor_type ∷ layout.interface_payload d

  unfoldable pub endpoint_bytes : EndpointDescriptor → List ℕ
  endpoint_bytes d =
      d.b_length ∷ d.b_descriptor_type ∷ d.b_endpoint_address ∷ layout.endpoint_payload d

  unfoldable pub ss_ep_comp_bytes : SsEpCompDescriptor → List ℕ
  ss_ep_comp_bytes d = d.b_length ∷ d.b_descriptor_type ∷ layout.ss_ep_comp_payload d

  unfoldable pub os_bytes : OsDescHeader → ExtCompatDesc → List ℕ
  os_bytes d c =
      d.interface ∷ (le32 d.dw_length ++ (layout.os_header_payload d ++ layout.ext_compat c))

  -- struct func_desc, packed
  unfoldable pub func_desc_bytes : FuncDesc → List ℕ
  func_desc_bytes f =
      concat (interface_bytes f.intf ∷ endpoint_bytes f.source ∷ endpoint_bytes f.sink ∷ [])

  -- struct ss_func_desc, packed
  unfoldable pub ss_func_desc_bytes : SsFuncDesc → List ℕ
  ss_func_desc_bytes f = concat (
      interface_bytes f.intf
      ∷ endpoint_bytes f.source
      ∷ ss_ep_comp_bytes f.source_comp
      ∷ endpoint_bytes f.sink
      ∷ ss_ep_comp_bytes f.sink_comp
      ∷ [])

  -- struct desc_v1, packed
  unfoldable pub desc_v1_bytes : DescV1 → List ℕ
  desc_v1_bytes d = concat (
      le32 d.magic
      ∷ le32 d.length
      ∷ le32 d.fs_count
      ∷ le32 d.hs_count
      ∷ func_desc_bytes d.fs_descs
      ∷ func_desc_bytes d.hs_descs
      ∷ [])

  -- struct desc_v2, packed; its header is magic, length and flags.
  unfoldable pub desc_v2_bytes : DescV2 → List ℕ
  desc_v2_bytes d = concat (
      le32 d.magic
      ∷ le32 d.length
      ∷ le32 d.flags
      ∷ le32 (to_u32 d.fd_eventfd)
      ∷ le32 d.fs_count
      ∷ le32 d.hs_count
      ∷ le32 d.ss_count
      ∷ le32 d.os_count
      ∷ func_desc_bytes d.fs_descs
      ∷ func_desc_bytes d.hs_descs
      ∷ os_bytes d.os_header d.os_desc
      ∷ [])

-- struct ffs_strings, packed; its header is magic, length and the two counts.
unfoldable pub ffs_strings_bytes : FfsStrings → List ℕ
ffs_strings_bytes t = concat (
    le32 t.header.magic
    ∷ le32 t.header.length
    ∷ le32 t.header.str_count
    ∷ le32 t.header.lang_count
    ∷ le16 t.code
    ∷ t.str1
    ∷ [])
