-- ===== src/Protocol/Parser.antt =====
-- onekey_protocol.hpp, class parser.
pub mod Cases
pub mod State
use firmware_x.Prelude.{
  ℕ, ◌+◌, ◌-◌, ◌*◌, List, [], ◌∷◌, ◌++◌, Bool, true, false, ◌&&◌, Outcome, ok, undefined,
  out_of_range, ◌>>=◌, leb, ◌==◌, same_bytes, length, drop, if◌then◌else◌,
}
use firmware_x.Protocol.{
  MessageComposed, MessageParsed, message_reset, header_magic, offset_id, offset_len, offset_data,
  size_data_subseq, range, load, from_memory,
}

pub record Parser : Type 0 where
  pub message_composed_pack : List MessageComposed
  pub parsed : MessageParsed

abbrev pub reset : Parser → Parser
reset p = record { message_composed_pack = []; parsed = message_reset }

abbrev pub get_composed : Parser → List MessageComposed
get_composed p = p.message_composed_pack

abbrev pub get_parsed : Parser → MessageParsed
get_parsed p = p.parsed

-- `v.at(0)`
abbrev pub at_front : List ℕ → Outcome ℕ
at_front [] = out_of_range
at_front (b ∷ bs) = ok b

-- The branch of the first packet. `reset` has left `protobuf_data` empty.
unfoldable pub parse_first : Parser → MessageComposed → Outcome (Bool × Parser)
parse_first p msg_raw = do
  id ← load offset_id 2 msg_raw
  size ← load offset_len 4 msg_raw
  body ← if from_memory size == 0 then ok [] else range offset_data (length msg_raw) msg_raw
  ok (
    true,
    record (reset p) {
      message_composed_pack = msg_raw ∷ [];
      parsed = record { id = from_memory id; size = from_memory size; protobuf_data = body };
    },
  )

-- The other two branches.
unfoldable pub parse_subseq : Parser → MessageComposed → Outcome (Bool × Parser)
parse_subseq p msg_raw = do
  first ← at_front msg_raw
  ok (
      if first == 0x3f && leb (length msg_raw - 1 + size_data_subseq) p.parsed.size
      then (
        true,
        record p {
          message_composed_pack = p.message_composed_pack ++ msg_raw ∷ [];
          parsed = record p.parsed { protobuf_data = p.parsed.protobuf_data ++ drop 1 msg_raw };
        },
      )
      else (false, p))

unfoldable pub parse_legacy : Parser → MessageComposed → Outcome (Bool × Parser)
parse_legacy p msg_raw = do
  head ← range 0 3 msg_raw
  if same_bytes head header_magic then parse_first p msg_raw else parse_subseq p msg_raw
