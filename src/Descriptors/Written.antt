-- ===== src/Descriptors/Written.antt =====
-- What `ffs_init` writes to the control file, for a handler with descriptors of the right sizes.
use firmware_x.Prelude.{
  ℕ, ◌+◌, ◌^◌, ◌<◌, ◌≡◌, refl, List, [], ◌∷◌, ◌++◌, append-nil, some, arith, ltb→lt, length, All,
  concat, true, length-append,
}
use firmware_x.Prelude.Int.{ℤ, pos, negsuc}
use firmware_x.System.{
  InterfaceDescriptor, EndpointDescriptor, FuncDesc, OsDescHeader, ExtCompatDesc, Uapi,
}
use firmware_x.Functionfs.{Handler}
use firmware_x.Descriptors.{
  le32, to_u32, Layout, interface_bytes, endpoint_bytes, func_desc_bytes, os_bytes,
}
use firmware_x.Descriptors.Documented.{Documented, IsSized, IsHandlerSized}
use firmware_x.Descriptors.Format.{
  read_descriptor, read_os_descriptor, read_many, read_count, read_parts,
}
use firmware_x.Descriptors.Reading.{
  read_le32-le32, IsRead, read_many-zero, descriptor-IsRead, os_descriptor-IsRead, read_many-concat,
}

to_u32-lt : (x : ℤ) → to_u32 x < 2 ^ 32
to_u32-lt (pos n) = omega arith
to_u32-lt (negsuc n) = omega arith

module _ {uapi : Uapi} (layout : Layout uapi) (documented : Documented uapi) where
  pub interface-IsRead :
      (d : InterfaceDescriptor)
      → d.b_length ≡ uapi.sizeof_interface_descriptor
      → IsRead read_descriptor (interface_bytes layout d)
  unfolding interface_bytes
  interface-IsRead d h =
      descriptor-IsRead d.b_length _ (omega (arith, h, documented.interface_size))
        (omega (arith, h, layout.interface_size d))

  pub endpoint-IsRead :
      (d : EndpointDescriptor)
      → d.b_length ≡ uapi.sizeof_endpoint_descriptor
      → IsRead read_descriptor (endpoint_bytes layout d)
  unfolding endpoint_bytes
  endpoint-IsRead d h =
      descriptor-IsRead d.b_length _ (omega (arith, h, documented.endpoint_size))
        (omega (arith, h, layout.endpoint_size d))

  -- The three descriptors of a func_desc.
  abbrev pub func_descs : FuncDesc → List (List ℕ)
  func_descs f =
      interface_bytes layout f.intf
      ∷ endpoint_bytes layout f.source
      ∷ endpoint_bytes layout f.sink
      ∷ []

  func_desc-IsRead : (f : FuncDesc) → IsSized uapi f → All (IsRead read_descriptor) (func_descs f)
  func_desc-IsRead f sized = (
    interface-IsRead f.intf sized.intf,
    (endpoint-IsRead f.source sized.source, (endpoint-IsRead f.sink sized.sink, tt)),
  )

  pub read_func_desc :
      (f : FuncDesc) (rest : List ℕ)
      → IsSized uapi f
      → read_many read_descriptor 3 (func_desc_bytes layout f ++ rest) ≡ some (func_descs f, rest)
  unfolding func_desc_bytes
  read_func_desc f rest sized =
      read_many-concat read_descriptor (func_descs f) rest (func_desc-IsRead f sized)

  os-IsRead :
      (d : OsDescHeader) (c : ExtCompatDesc)
      → d.dw_length ≡ uapi.sizeof_os_desc_header + uapi.sizeof_ext_compat_desc
      → IsRead read_os_descriptor (os_bytes layout d c)
  unfolding os_bytes
  os-IsRead d c h =
      let payload = layout.os_header_payload d ++ layout.ext_compat c in
      let size : 5 + length payload ≡ d.dw_length = omega (
        arith,
        h,
        length-append (layout.os_header_payload d) (layout.ext_compat c),
        layout.os_header_size d,
        layout.ext_compat_size c,
      ) in
      os_descriptor-IsRead d.interface d.dw_length payload (omega arith)
        (omega (arith, h, documented.os_header_size, documented.ext_compat_size)) size

  read_os_desc :
      (d : OsDescHeader) (c : ExtCompatDesc)
      → d.dw_length ≡ uapi.sizeof_os_desc_header + uapi.sizeof_ext_compat_desc
      → read_many read_os_descriptor 1 (os_bytes layout d c ++ [])
        ≡ some (os_bytes layout d c ∷ [], [])
  read_os_desc d c h =
      rw (append-nil (os_bytes layout d c ++ [])) at
        (read_many-concat read_os_descriptor (os_bytes layout d c ∷ []) [] (os-IsRead d c h, tt))

  module _ (s : Handler) (sized : IsHandlerSized uapi s) where
    pub read_parts-written :
        read_parts true true true true true (
          concat (
            le32 (to_u32 s.fd_eventfd)
            ∷ le32 3
            ∷ le32 3
            ∷ le32 0
            ∷ le32 1
            ∷ func_desc_bytes layout s.fs_descriptors
            ∷ func_desc_bytes layout s.hs_descriptors
            ∷ os_bytes layout s.os_desc_header s.os_desc_compat
            ∷ []))
        ≡ some (record {
          eventfd = to_u32 s.fd_eventfd;
          full_speed = func_descs s.fs_descriptors;
          high_speed = func_descs s.hs_descriptors;
          super_speed = [];
          os = os_bytes layout s.os_desc_header s.os_desc_compat ∷ [];
        })
    unfolding read_parts read_count
    read_parts-written = rw (read_le32-le32 (to_u32 s.fd_eventfd) _ (to_u32-lt s.fd_eventfd)) (
        rw (read_le32-le32 3 _ (ltb→lt _ _ refl)) (
          rw (read_le32-le32 3 _ (ltb→lt _ _ refl)) (
            rw (read_le32-le32 0 _ (ltb→lt _ _ refl)) (
              rw (read_le32-le32 1 _ (ltb→lt _ _ refl)) (
                rw (read_func_desc s.fs_descriptors _ sized.fs) (
                  rw (read_func_desc s.hs_descriptors _ sized.hs) (
                    rw (read_many-zero read_descriptor _)
                      (rw (read_os_desc s.os_desc_header s.os_desc_compat sized.os)))))))))
