-- ===== src/Descriptors/Sizes.antt =====
-- The sizes of the packed structs, as the numbers of their bytes.
use firmware_x.Prelude.{◌+◌, ◌*◌, ◌≡◌, [], ◌++◌, arith, length, length-append}
use firmware_x.System.{
  InterfaceDescriptor, EndpointDescriptor, FuncDesc, OsDescHeader, ExtCompatDesc, DescV2, Uapi,
}
use firmware_x.Descriptors.{
  le32, Layout, interface_bytes, endpoint_bytes, func_desc_bytes, os_bytes, desc_v2_bytes,
}
use firmware_x.Descriptors.Documented.{Documented}

module _ {uapi : Uapi} (layout : Layout uapi) (documented : Documented uapi) where
  length-interface_bytes :
      (d : InterfaceDescriptor)
      → length (interface_bytes layout d) ≡ uapi.sizeof_interface_descriptor
  unfolding interface_bytes
  length-interface_bytes d = omega (arith, layout.interface_size d)

  length-endpoint_bytes :
      (d : EndpointDescriptor) → length (endpoint_bytes layout d) ≡ uapi.sizeof_endpoint_descriptor
  unfolding endpoint_bytes
  length-endpoint_bytes d = omega (arith, layout.endpoint_size d)

  pub length-func_desc_bytes :
      (f : FuncDesc)
      → length (func_desc_bytes layout f)
        ≡ uapi.sizeof_interface_descriptor + 2 * uapi.sizeof_endpoint_descriptor
  unfolding func_desc_bytes
  length-func_desc_bytes f =
      let intf = interface_bytes layout f.intf in
      let source = endpoint_bytes layout f.source in
      let sink = endpoint_bytes layout f.sink in
      omega (
        arith,
        length-append intf (source ++ (sink ++ [])),
        length-append source (sink ++ []),
        length-append sink [],
        length-interface_bytes f.intf,
        length-endpoint_bytes f.source,
        length-endpoint_bytes f.sink,
      )

  length-os_bytes :
      (d : OsDescHeader) (c : ExtCompatDesc)
      → length (os_bytes layout d c) ≡ uapi.sizeof_os_desc_header + uapi.sizeof_ext_compat_desc
  unfolding os_bytes le32
  length-os_bytes d c = omega (
    arith,
    length-append (layout.os_header_payload d) (layout.ext_compat c),
    layout.os_header_size d,
    layout.ext_compat_size c,
  )

  pub length-desc_v2_bytes : (d : DescV2) → length (desc_v2_bytes layout d) ≡ uapi.sizeof_desc_v2
  unfolding desc_v2_bytes le32
  length-desc_v2_bytes d =
      let fs = func_desc_bytes layout d.fs_descs in
      let hs = func_desc_bytes layout d.hs_descs in
      let os = os_bytes layout d.os_header d.os_desc in
      omega (
        arith,
        length-append fs (hs ++ (os ++ [])),
        length-append hs (os ++ []),
        length-append os [],
        length-func_desc_bytes d.fs_descs,
        length-func_desc_bytes d.hs_descs,
        length-os_bytes d.os_header d.os_desc,
        documented.desc_v2_size,
      )
