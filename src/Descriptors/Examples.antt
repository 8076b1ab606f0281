-- ===== src/Descriptors/Examples.antt =====
-- The bytes that the handler of onekey_usb_functionfs.hpp writes in the tests.
use firmware_x.Prelude.{◌≡◌, refl, [], ◌∷◌, some, take, ltb→lt}
use firmware_x.System.Sample.{sample_env, sample_strings}
use firmware_x.System.{FfsStrings}
use firmware_x.Functionfs.Mount.{v1_descriptor, v2_descriptor}
use firmware_x.Functionfs.Sample.{running}
use firmware_x.Protocol.{byte_of}
use firmware_x.Descriptors.{
  le16, le32, interface_bytes, func_desc_bytes, desc_v1_bytes, desc_v2_bytes, ffs_strings_bytes,
}
use firmware_x.Descriptors.ByteOrder.{
  big_endian, memory16, memory32, cpu_to_le16, cpu_to_le32, le16_to_cpu, le32_to_cpu,
  byte_order_lem,
}
use firmware_x.Descriptors.Format.{read_descriptors, read_descriptors_v1, read_strings}
use firmware_x.Descriptors.RoundTrip.{descriptors, written_descriptors}
use firmware_x.Descriptors.Sample.{sample_layout, sample_documented}
use firmware_x.Descriptors.Strings.{no_zero-All, written_strings}

written_descriptors_example :
    let given = descriptors sample_env sample_layout sample_documented running in
    (read_descriptors sample_env.uapi
        (desc_v2_bytes sample_layout (v2_descriptor sample_env running))
      ≡ some given)
    × (read_descriptors_v1 sample_env.uapi
          (desc_v1_bytes sample_layout (v1_descriptor sample_env running))
        ≡ some (given.full_speed, given.high_speed))
written_descriptors_example =
    written_descriptors sample_env sample_layout sample_documented running (record {
      fs = record { intf = refl; source = refl; sink = refl };
      hs = record { intf = refl; source = refl; sink = refl };
      os = refl;
    })

abbrev strings : FfsStrings
strings = record sample_strings {
  str1 = b'u' ∷ b's' ∷ b'b' ∷ 0 ∷ [];
  header = record sample_strings.header { length = 22 };
}

written_strings_example :
    read_strings sample_env.uapi (ffs_strings_bytes strings)
    ≡ some ((0x0409, (b'u' ∷ b's' ∷ b'b' ∷ []) ∷ []) ∷ [])
written_strings_example =
    written_strings sample_env.uapi strings (b'u' ∷ b's' ∷ b'b' ∷ []) (record {
      magic = refl;
      length = refl;
      str_count = refl;
      lang_count = refl;
      code_fits = ltb→lt _ _ refl;
      magic_fits = ltb→lt _ _ refl;
      length_fits = ltb→lt _ _ refl;
      str1 = refl;
      no_zero = no_zero-All (b'u' ∷ b's' ∷ b'b' ∷ []) refl;
    })

-- The header, the eventfd, the four counts, and the first descriptor.
first_bytes :
    take 41 (desc_v2_bytes sample_layout (v2_descriptor sample_env running))
    ≡ 3 ∷ 0 ∷ 0 ∷ 0 ∷ 113 ∷ 0 ∷ 0 ∷ 0 ∷ 47 ∷ 0 ∷ 0 ∷ 0 ∷ 3 ∷ 0 ∷ 0 ∷ 0 ∷ 3 ∷ 0 ∷ 0 ∷ 0 ∷ 3 ∷ 0 ∷ 0
      ∷ 0 ∷ 0 ∷ 0 ∷ 0 ∷ 0 ∷ 1 ∷ 0 ∷ 0 ∷ 0 ∷ 9 ∷ 4 ∷ 0 ∷ 0 ∷ 2 ∷ 255 ∷ 0 ∷ 0 ∷ 1 ∷ []
unfolding desc_v2_bytes v2_descriptor le32 byte_of func_desc_bytes interface_bytes
first_bytes = refl

byte_order_lem_example :
    (memory16 big_endian (cpu_to_le16 big_endian 0x0409) ≡ le16 0x0409)
    × (le16_to_cpu big_endian (cpu_to_le16 big_endian 0x0409) ≡ 0x0409)
    × (memory32 big_endian (cpu_to_le32 big_endian 113) ≡ le32 113)
    × (le32_to_cpu big_endian (cpu_to_le32 big_endian 113) ≡ 113)
byte_order_lem_example = byte_order_lem big_endian 0x0409 113 (ltb→lt _ _ refl) (ltb→lt _ _ refl)
