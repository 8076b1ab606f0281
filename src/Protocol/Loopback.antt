-- ===== src/Protocol/Loopback.antt =====
-- The parser fed with a run of packets that follow a first one.
use firmware_x.Prelude.{
  ◌*◌, ◌≡◌, refl, ◌∙◌, inl, inr, List, [], ◌∷◌, ◌++◌, append-nil, append_assoc, true, false, ok,
  arith, leb, Bool-cases, length, length-append, length-drop, All, drop, if◌then◌else◌,
}
use firmware_x.Protocol.{MessageComposed}
use firmware_x.Protocol.Host.{sequel_data}
use firmware_x.Protocol.Parser.{Parser, parse_legacy}
use firmware_x.Protocol.Parser.State.{feed}
use firmware_x.Protocol.Parser.Cases.{is_first, starts_sequel, after_subseq, parse_legacy_lem}

-- A packet of 64 bytes that begins with "?" and not with "?##".
pub record IsSequel (raw : MessageComposed) : Type 0 where
  pub full : length raw ≡ 64
  pub marked : starts_sequel raw ≡ true
  pub not_first : is_first raw ≡ false

parse_sequel :
    (p : Parser) (raw : MessageComposed)
    → IsSequel raw
    → parse_legacy p raw
      ≡ ok (if leb 126 p.parsed.size then (true, after_subseq p raw) else (false, p))
parse_sequel p raw s = parse_legacy_lem p raw ∙ rw (s.full, s.marked, s.not_first)

pub feed-sequel :
    (raws : List MessageComposed) (p : Parser)
    → All IsSequel raws
    → feed raws p
      ≡ ok (
          if leb 126 p.parsed.size
          then record {
            message_composed_pack = p.message_composed_pack ++ raws;
            parsed = record p.parsed { protobuf_data = p.parsed.protobuf_data ++ sequel_data raws };
          }
          else p)
unfolding feed
feed-sequel [] p all = elim (Bool-cases (leb 126 p.parsed.size)) [
  | inl fits ↦ rw (fits, append-nil p.message_composed_pack, append-nil p.parsed.protobuf_data)
  | inr small ↦ rw small
]
feed-sequel (raw ∷ raws) p (s, all) = elim (Bool-cases (leb 126 p.parsed.size)) [
  | inl fits ↦
      rw (parse_sequel p raw s, fits)
        (feed-sequel raws (after_subseq p raw) all
          ∙ rw (
            fits,
            append_assoc p.message_composed_pack (raw ∷ []),
            append_assoc p.parsed.protobuf_data (drop 1 raw),
          ))
  | inr small ↦ rw (parse_sequel p raw s, small) (feed-sequel raws p all ∙ rw small)
]

length-sequel_data :
    (raws : List MessageComposed) → All IsSequel raws → length (sequel_data raws) ≡ length raws * 63
length-sequel_data [] all = refl
length-sequel_data (raw ∷ raws) (s, all) = omega (
  arith,
  length-append (drop 1 raw) (sequel_data raws),
  length-drop 1 raw,
  length-sequel_data raws all,
  s.full,
)
