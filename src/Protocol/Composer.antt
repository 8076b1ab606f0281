-- ===== src/Protocol/Composer.antt =====
-- onekey_protocol.hpp, class composer.
pub mod Packets
pub mod Success
use firmware_x.Prelude.{
  ℕ, zero, suc, ◌+◌, ◌-◌, ◌*◌, List, [], ◌∷◌, ◌++◌, Bool, true, false, not, Outcome, ok, exhausted,
  ◌>>=◌, leb, ltb, ◌==◌, length, replicate, if◌then◌else◌,
}
use firmware_x.Protocol.{
  MessageComposed, MessageParsed, message_reset, header_magic, packet_size, size_data_first,
  size_data_subseq, range, byte_of,
}

pub record Composer : Type 0 where
  pub message_composed_pack : List MessageComposed
  pub parsed : MessageParsed

abbrev pub reset : Composer → Composer
reset c = record { message_composed_pack = []; parsed = message_reset }

abbrev pub get_composed : Composer → List MessageComposed
get_composed c = c.message_composed_pack

abbrev pub get_parsed : Composer → MessageParsed
get_parsed c = c.parsed

-- The block "first pack", up to its size check.
unfoldable pub first_pack : MessageParsed → Outcome MessageComposed
first_pack m = do
  body ← range 0 size_data_first m.protobuf_data
  ok (
      header_magic
      ++ byte_of m.id 1
        ∷ byte_of m.id 0
        ∷ byte_of m.size 3
        ∷ byte_of m.size 2
        ∷ byte_of m.size 1
        ∷ byte_of m.size 0
        ∷ body)

-- The packet that one round of the loop builds at `composed` bytes, with its `0x00` fill.
unfoldable pub subseq_pack : List ℕ → ℕ → Outcome MessageComposed
subseq_pack protobuf_data composed = do
  let left = length protobuf_data - composed
  let to_be_composed = if leb size_data_subseq left then size_data_subseq else left
  body ← range composed (composed + to_be_composed) protobuf_data
  let packet = 0x3f ∷ body
  ok (
      if ltb to_be_composed size_data_subseq
      then packet ++ replicate (size_data_subseq - to_be_composed) 0
      else packet)

abbrev pub bytes_composed : Composer → ℕ
bytes_composed c = size_data_first + (length c.message_composed_pack - 1) * size_data_subseq

abbrev pub push_back : Composer → MessageComposed → Composer
push_back c packet = record c { message_composed_pack = c.message_composed_pack ++ packet ∷ [] }

-- The loop of the subsequential packs, on fuel.
unfoldable pub compose_subseq : ℕ → Composer → Outcome (Bool × Composer)
compose_subseq zero c = exhausted
compose_subseq (suc fuel) c =
    let round = do
      packet ← subseq_pack c.parsed.protobuf_data (bytes_composed c)
      let more = compose_subseq fuel (push_back c packet)
      if length packet == packet_size then more else ok (false, c)
    in if leb (length c.parsed.protobuf_data) (bytes_composed c) then ok (true, c) else round

-- Each round takes at least a byte, so a round for each byte is enough.
unfoldable pub compose_legacy : Composer → MessageParsed → Outcome (Bool × Composer)
compose_legacy c m =
    let composing = do
      let start = record (reset c) { parsed = m }
      packet ← first_pack m
      if length packet == packet_size
          then compose_subseq (suc (length m.protobuf_data)) (push_back start packet)
          else ok (false, start)
    in if length m.protobuf_data == m.size then composing else ok (false, c)
