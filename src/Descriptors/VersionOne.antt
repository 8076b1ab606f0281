-- ===== src/Descriptors/VersionOne.antt =====
-- onekey_usb_functionfs.hpp, struct desc_v1: its bytes, read in the older format.
use firmware_x.Prelude.{
  ◌+◌, ◌*◌, ◌≡◌, [], ◌++◌, some, true, ◌&&◌, ◌==◌, ==-self, arith, length, length-append, ◌<◌, ◌^◌,
}
use firmware_x.System.{DescV1, Uapi}
use firmware_x.Descriptors.{Layout, le32, func_desc_bytes, desc_v1_bytes}
use firmware_x.Descriptors.Documented.{Documented, IsSized}
use firmware_x.Descriptors.Format.{read_descriptors_v1}
use firmware_x.Descriptors.Reading.{read_le32-le32}
use firmware_x.Descriptors.Sizes.{length-func_desc_bytes}
use firmware_x.Descriptors.Written.{func_descs, read_func_desc}

pub record IsV1 (uapi : Uapi) (d : DescV1) : Type 0 where
  pub magic : d.magic ≡ uapi.descriptors_magic
  pub length :
      d.length
      ≡ 4 * 4 + 2 * (uapi.sizeof_interface_descriptor + 2 * uapi.sizeof_endpoint_descriptor)
  pub fs_count : d.fs_count ≡ 3
  pub hs_count : d.hs_count ≡ 3
  pub fs : IsSized uapi d.fs_descs
  pub hs : IsSized uapi d.hs_descs

module _ {uapi : Uapi} (layout : Layout uapi) (documented : Documented uapi) where
  length-desc_v1_bytes :
      (d : DescV1)
      → length (desc_v1_bytes layout d)
        ≡ 4 * 4 + 2 * (uapi.sizeof_interface_descriptor + 2 * uapi.sizeof_endpoint_descriptor)
  unfolding desc_v1_bytes le32
  length-desc_v1_bytes d =
      let fs = func_desc_bytes layout d.fs_descs in
      let hs = func_desc_bytes layout d.hs_descs in
      omega (
        arith,
        length-append fs (hs ++ []),
        length-append hs [],
        length-func_desc_bytes layout documented d.fs_descs,
        length-func_desc_bytes layout documented d.hs_descs,
      )

  accepted :
      (d : DescV1)
      → IsV1 uapi d
      → (d.magic == uapi.descriptors_magic && d.length == length (desc_v1_bytes layout d)) ≡ true
  accepted d v = rw (
    length-desc_v1_bytes d,
    v.magic,
    v.length,
    ==-self uapi.descriptors_magic,
    ==-self (4 * 4 + 2 * (uapi.sizeof_interface_descriptor + 2 * uapi.sizeof_endpoint_descriptor)),
  )

  -- The bytes of a filled desc_v1 give back the descriptors for the two speeds, with nothing left over.
  pub read_desc_v1 :
      (d : DescV1)
      → IsV1 uapi d
      → read_descriptors_v1 uapi (desc_v1_bytes layout d)
        ≡ some (func_descs layout documented d.fs_descs, func_descs layout documented d.hs_descs)
  unfolding read_descriptors_v1 desc_v1_bytes le32
  read_desc_v1 d v =
      let magic : d.magic < 2 ^ 32 = omega (arith, v.magic, documented.magic_v1) in
      let size : d.length < 2 ^ 32 =
        omega (arith, v.length, documented.interface_size, documented.endpoint_size) in
      rw (read_le32-le32 d.magic _ magic) (
        rw (read_le32-le32 d.length _ size) (
          rw (read_le32-le32 d.fs_count _ (omega (arith, v.fs_count))) (
            rw (read_le32-le32 d.hs_count _ (omega (arith, v.hs_count))) (
              rw (v.fs_count, v.hs_count)
                (rw
                  (
                    read_func_desc layout documented d.fs_descs _ v.fs,
                    read_func_desc layout documented d.hs_descs _ v.hs,
                  )
                  (rw (accepted d v)))))))
