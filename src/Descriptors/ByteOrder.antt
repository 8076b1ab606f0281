-- ===== src/Descriptors/ByteOrder.antt =====
-- onekey_usb_util.hpp: cpu_to_le16, cpu_to_le32, le16_to_cpu and le32_to_cpu, for both byte orders of a
-- machine, with htole16, htole32, le16toh and le32toh of the C library.
use firmware_x.Prelude.{ℕ, ◌^◌, ◌<◌, ◌≡◌, refl, List, [], ◌∷◌, arith}
use firmware_x.Protocol.{byte_of}
use firmware_x.Protocol.Endian.{swap16, swap32}
use firmware_x.Descriptors.{le16, le32}

-- __BYTE_ORDER
pub data ByteOrder : Type 0 where
  little_endian big_endian : ByteOrder

-- The bytes of a uint16_t and of a uint32_t in the memory of the machine.
unfoldable pub memory16 : ByteOrder → ℕ → List ℕ
memory16 little_endian n = byte_of n 0 ∷ byte_of n 1 ∷ []
memory16 big_endian n = byte_of n 1 ∷ byte_of n 0 ∷ []

unfoldable pub memory32 : ByteOrder → ℕ → List ℕ
memory32 little_endian n = byte_of n 0 ∷ byte_of n 1 ∷ byte_of n 2 ∷ byte_of n 3 ∷ []
memory32 big_endian n = byte_of n 3 ∷ byte_of n 2 ∷ byte_of n 1 ∷ byte_of n 0 ∷ []

-- htole16 and le16toh, htole32 and le32toh: each pair is one function.
abbrev htole16 : ByteOrder → ℕ → ℕ
htole16 little_endian n = n
htole16 big_endian n = swap16 n

abbrev htole32 : ByteOrder → ℕ → ℕ
htole32 little_endian n = n
htole32 big_endian n = swap32 n

unfoldable pub cpu_to_le16 : ByteOrder → ℕ → ℕ
cpu_to_le16 little_endian x = x
cpu_to_le16 big_endian x = htole16 big_endian x

unfoldable pub cpu_to_le32 : ByteOrder → ℕ → ℕ
cpu_to_le32 little_endian x = x
cpu_to_le32 big_endian x = htole32 big_endian x

unfoldable pub le16_to_cpu : ByteOrder → ℕ → ℕ
le16_to_cpu order x = htole16 order x

unfoldable pub le32_to_cpu : ByteOrder → ℕ → ℕ
le32_to_cpu order x = htole32 order x

-- In either byte order of the machine, a number below 2 ^ 32 that is converted by cpu_to_le32 lies in
-- memory with its lowest byte first, and is converted back by le32_to_cpu; and so is one below 2 ^ 16
-- with the 16-bit macros.
pub byte_order_lem :
    (order : ByteOrder) (m n : ℕ)
    → m < 2 ^ 16
    → n < 2 ^ 32
    → (memory16 order (cpu_to_le16 order m) ≡ le16 m)
      × (le16_to_cpu order (cpu_to_le16 order m) ≡ m)
      × (memory32 order (cpu_to_le32 order n) ≡ le32 n)
      × (le32_to_cpu order (cpu_to_le32 order n) ≡ n)
unfolding memory16 memory32 cpu_to_le16 cpu_to_le32 le16_to_cpu le32_to_cpu le16 le32 byte_of
byte_order_lem little_endian m n h k = (refl, refl, refl, refl)
byte_order_lem big_endian m n h k = (ground arith, omega arith, ground arith, omega arith)
