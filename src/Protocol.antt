-- ===== src/Protocol.antt =====
-- onekey_protocol.hpp: the constants and the message type that the parser and the composer share.
-- A byte, a uint16_t and a uint32_t are natural numbers; the vectors are shorter than 2 ^ 63, so
-- that sums of their sizes do not wrap. The target (aarch64) is little-endian.
pub mod Parser
pub mod Composer
pub mod Host
pub mod Loopback
pub mod Endian
pub mod Restart
mod Examples
use firmware_x.Prelude.{
  ℕ, ◌+◌, ◌-◌, ◌*◌, ◌/◌, ◌%◌, ◌^◌, List, [], ◌∷◌, ◌&&◌, Outcome, ok, undefined, ◌>>=◌, leb, length,
  take, drop, if◌then◌else◌,
}

abbrev pub packet_size : ℕ
packet_size = 64

abbrev pub offset_id : ℕ
offset_id = 3

abbrev pub offset_len : ℕ
offset_len = 5

abbrev pub offset_data : ℕ
offset_data = 9

abbrev pub size_data_first : ℕ
size_data_first = packet_size - 3 - 2 - 4

abbrev pub size_data_subseq : ℕ
size_data_subseq = packet_size - 1

-- The bytes of "?##".
abbrev pub header_magic : List ℕ
header_magic = 0x3f ∷ 0x23 ∷ 0x23 ∷ []

abbrev pub MessageComposed : Type 0
MessageComposed = List ℕ

pub record MessageParsed : Type 0 where
  pub id : ℕ
  pub size : ℕ
  pub protobuf_data : List ℕ

abbrev pub message_reset : MessageParsed
message_reset = record { id = 0; size = 0; protobuf_data = [] }

-- The elements from `begin() + i` up to `begin() + j`.
unfoldable pub range : ℕ → ℕ → List ℕ → Outcome (List ℕ)
range i j v = if leb i j && leb j (length v) then ok (take (j - i) (drop i v)) else undefined

-- The number that an object of these bytes holds in memory, its first byte the lowest.
unfoldable pub from_memory : List ℕ → ℕ
from_memory [] = 0
from_memory (b ∷ bs) = b + 256 * from_memory bs

-- The bytes of `*reinterpret_cast<T*>(&v.data()[i])`, for a `T` of this size. Standard C++ leaves such a
-- load undefined, for its alignment and since no `T` is there; it is taken to read the bytes, as the
-- target does, and to be undefined only where they do not all lie in the vector.
abbrev pub load : ℕ → ℕ → List ℕ → Outcome (List ℕ)
load i size v = range i (i + size) v

-- `*(reinterpret_cast<uint8_t*>(&x) + i)`
unfoldable pub byte_of : ℕ → ℕ → ℕ
byte_of x i = x / 256 ^ i % 256
