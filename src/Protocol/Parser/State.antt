-- ===== src/Protocol/Parser/State.antt =====
-- The parsed message, and the packets that the parser holds.
use firmware_x.Prelude.{
  ◌≤◌, ◌≡◌, List, [], ◌∷◌, append-nil, Bool, Outcome, ok, ◌>>=◌, bind_parts, arith, ◌==◌, drop,
  if◌then◌else◌,
}
use firmware_x.Protocol.{MessageComposed, MessageParsed, message_reset}
use firmware_x.Protocol.Host.{wire_data, wire_data-snoc}
use firmware_x.Protocol.Parser.{Parser, parse_legacy}
use firmware_x.Protocol.Parser.Cases.{
  id_in_memory, size_in_memory, after_first, after_subseq, parse_legacy_lem,
}

-- The message that a packet sequence announces and carries, as far as it goes.
abbrev pub held : List MessageComposed → MessageParsed
held [] = message_reset
held (raw ∷ ps) = record {
  id = id_in_memory raw;
  size = size_in_memory raw;
  protobuf_data = if size_in_memory raw == 0 then [] else wire_data (raw ∷ ps);
}

abbrev pub IsFaithful : Parser → Type 0
IsFaithful p = p.parsed ≡ held p.message_composed_pack

after_first-IsFaithful : (raw : MessageComposed) → IsFaithful (after_first raw)
unfolding wire_data
after_first-IsFaithful raw = rw (append-nil (drop 9 raw))

after_subseq-IsFaithful :
    (pack : List MessageComposed) (m : MessageParsed) (raw : MessageComposed)
    → 63 ≤ m.size
    → m ≡ held pack
    → IsFaithful (after_subseq (record { message_composed_pack = pack; parsed = m }) raw)
after_subseq-IsFaithful [] m raw h v = absurd (ground arith)
after_subseq-IsFaithful (x ∷ ps) m raw h v = ground (arith, wire_data-snoc x ps raw)

-- Every call of `parse_legacy` that returns, with true or with false, keeps the parsed message that
-- of the packets held: the id and the size of the first, and the data of all (none if the size is 0).
pub parse_legacy-IsFaithful :
    (p p' : Parser) (raw : MessageComposed) (b : Bool)
    → IsFaithful p
    → parse_legacy p raw ≡ ok (b, p')
    → IsFaithful p'
parse_legacy-IsFaithful p p' raw b v h = ground (
  arith,
  parse_legacy_lem p raw,
  after_first-IsFaithful raw,
  after_subseq-IsFaithful p.message_composed_pack p.parsed raw,
)

-- The packets of a service run, one call after another; the results are ignored, as the service
-- routine ignores them.
unfoldable pub feed : List MessageComposed → Parser → Outcome Parser
feed [] p = ok p
feed (raw ∷ raws) p = do (b, q) ← parse_legacy p raw; feed raws q

-- So from any faithful parser, such as a fresh one, a whole run of calls that returns ends in a
-- parser whose parsed message is that of the packets it holds.
pub feed-IsFaithful :
    (raws : List MessageComposed) (p p' : Parser)
    → IsFaithful p
    → feed raws p ≡ ok p'
    → IsFaithful p'
unfolding feed
feed-IsFaithful [] p p' v h = ground arith
feed-IsFaithful (raw ∷ raws) p p' v h =
    let ((b, q), parsed, rest) = bind_parts (parse_legacy p raw) _ h in
    feed-IsFaithful raws q p' (parse_legacy-IsFaithful p q raw b v parsed) rest
