-- ===== src/Descriptors/RoundTrip.antt =====
-- The descriptors that `ffs_init` of onekey_usb_functionfs.hpp writes, read as the header documents them.
use Prim.Native.Nat.{bit_or}
use firmware_x.Prelude.{
  List, ◌&&◌, ℕ, ◌^◌, ◌<◌, ◌≡◌, refl, [], ◌∷◌, some, arith, true, ==-self, ◌==◌, length,
}
use firmware_x.System.{DescV2, Env, Uapi}
use firmware_x.Functionfs.{Handler}
use firmware_x.Functionfs.Mount.{v1_descriptor, v2_descriptor}
use firmware_x.Descriptors.{Layout, to_u32, os_bytes, desc_v1_bytes, desc_v2_bytes}
use firmware_x.Descriptors.Documented.{Documented, IsHandlerSized}
use firmware_x.Descriptors.Format.{
  Descriptors, read_body, read_parts, read_descriptors, read_descriptors_v1, known_flags,
}
use firmware_x.Descriptors.Reading.{read_le32-le32}
use firmware_x.Descriptors.Sizes.{length-desc_v2_bytes}
use firmware_x.Descriptors.VersionOne.{IsV1, read_desc_v1}
use firmware_x.Descriptors.Written.{func_descs, read_parts-written}

known_flags_lem : {uapi : Uapi} → Documented uapi → known_flags uapi ≡ 47
known_flags_lem {uapi} d = rw (d.has_fs, d.has_hs, d.has_ss, d.has_os, d.has_eventfd) refl

module _ (env : Env) (layout : Layout env.uapi) (documented : Documented env.uapi) where
  -- What a handler has, as the list of its descriptors.
  abbrev pub descriptors : Handler → Descriptors
  descriptors s = record {
    eventfd = to_u32 s.fd_eventfd;
    full_speed = func_descs layout documented s.fs_descriptors;
    high_speed = func_descs layout documented s.hs_descriptors;
    super_speed = [];
    os = os_bytes layout s.os_desc_header s.os_desc_compat ∷ [];
  }

  -- The three conditions under which the block is not refused.
  accepted :
      (d : DescV2)
      → (env.uapi.descriptors_magic_v2 == env.uapi.descriptors_magic_v2
          && env.uapi.sizeof_desc_v2 == length (desc_v2_bytes layout d)
          && bit_or (known_flags env.uapi) (known_flags env.uapi) == known_flags env.uapi)
        ≡ true
  accepted d = rw (
    ==-self env.uapi.descriptors_magic_v2,
    length-desc_v2_bytes layout documented d,
    ==-self env.uapi.sizeof_desc_v2,
    known_flags_lem documented,
  )

  read_body-known :
      (bs : List ℕ)
      → read_body env.uapi (known_flags env.uapi) bs ≡ read_parts true true true true true bs
  unfolding read_body
  read_body-known bs =
      rw
        (
          known_flags_lem documented,
          documented.has_fs,
          documented.has_hs,
          documented.has_ss,
          documented.has_os,
          documented.has_eventfd,
        )
        refl

  written_v2 :
      (s : Handler)
      → IsHandlerSized env.uapi s
      → read_descriptors env.uapi (desc_v2_bytes layout (v2_descriptor env s))
        ≡ some (descriptors s)
  unfolding read_descriptors desc_v2_bytes v2_descriptor
  written_v2 s sized =
      let magic : env.uapi.descriptors_magic_v2 < 2 ^ 32 = omega (arith, documented.magic) in
      let size : env.uapi.sizeof_desc_v2 < 2 ^ 32 = omega (
        arith, documented.desc_v2_size, documented.interface_size, documented.endpoint_size,
        documented.os_header_size, documented.ext_compat_size,
      ) in
      let flags : known_flags env.uapi < 2 ^ 32 = omega (arith, known_flags_lem documented) in
      rw (read_le32-le32 env.uapi.descriptors_magic_v2 _ magic) (
        rw (read_le32-le32 env.uapi.sizeof_desc_v2 _ size) (
          rw (read_le32-le32 (known_flags env.uapi) _ flags) (
            rw (accepted (v2_descriptor env s))
              (rw (read_body-known _) (read_parts-written layout documented s sized)))))

  v1_descriptor-IsV1 :
      (s : Handler) → IsHandlerSized env.uapi s → IsV1 env.uapi (v1_descriptor env s)
  unfolding v1_descriptor
  v1_descriptor-IsV1 s sized = record {
    magic = refl;
    length = documented.desc_v1_size;
    fs_count = refl;
    hs_count = refl;
    fs = sized.fs;
    hs = sized.hs;
  }

  filled_v1 :
      (s : Handler)
      → IsHandlerSized env.uapi s
      → read_descriptors_v1 env.uapi (desc_v1_bytes layout (v1_descriptor env s))
        ≡ some ((descriptors s).full_speed, (descriptors s).high_speed)
  unfolding v1_descriptor
  filled_v1 s sized =
      read_desc_v1 layout documented (v1_descriptor env s) (v1_descriptor-IsV1 s sized)

  -- What `ffs_init` fills in for any handler whose descriptors carry their sizes, in the version that it
  -- writes: read as the format is documented, the bytes are not refused, their length is the one in the
  -- header, and they give back the eventfd, as 32 bits, the descriptors for full and for high speed and
  -- the one for operating systems, each whole and in order, with nothing left over. The older version,
  -- which it fills in and does not write, gives back the same descriptors for the two speeds. The
  -- headers' constants and sizes must be as documented.
  pub written_descriptors :
      (s : Handler)
      → IsHandlerSized env.uapi s
      → (read_descriptors env.uapi (desc_v2_bytes layout (v2_descriptor env s))
          ≡ some (descriptors s))
        × (read_descriptors_v1 env.uapi (desc_v1_bytes layout (v1_descriptor env s))
            ≡ some ((descriptors s).full_speed, (descriptors s).high_speed))
  written_descriptors s sized = (written_v2 s sized, filled_v1 s sized)
