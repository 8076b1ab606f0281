-- ===== src/Protocol/Parser/Cases.antt =====
-- `parse_legacy` on every branch, without the iterators.
use firmware_x.Prelude.{
  ℕ, ◌+◌, ◌-◌, ◌≤◌, ◌<◌, ◌≡◌, ◌∙◌, refl, inl, inr, List, [], ◌∷◌, ◌++◌, Bool, true, false, ◌&&◌, ok,
  undefined, arith, le→ltb-false, ltb, leb, ◌==◌, Bool-cases, ltb→lt, ltb-false→le, le→leb, lt→leb,
  same_bytes, length, length-drop, take, drop, take-all, if◌then◌else◌,
}
use firmware_x.Protocol.{MessageComposed, header_magic, range, from_memory}
use firmware_x.Protocol.Parser.{Parser, parse_first, parse_subseq, parse_legacy}

-- The id and the size at their places in the first packet, read as the machine reads them.
abbrev pub id_in_memory : MessageComposed → ℕ
id_in_memory raw = from_memory (take 2 (drop 3 raw))

abbrev pub size_in_memory : MessageComposed → ℕ
size_in_memory raw = from_memory (take 4 (drop 5 raw))

abbrev pub is_first : MessageComposed → Bool
is_first raw = same_bytes (take 3 raw) header_magic

abbrev pub starts_sequel : MessageComposed → Bool
starts_sequel [] = false
starts_sequel (b ∷ bs) = b == 0x3f

abbrev pub after_first : MessageComposed → Parser
after_first raw = record {
  message_composed_pack = raw ∷ [];
  parsed = record {
    id = id_in_memory raw;
    size = size_in_memory raw;
    protobuf_data = if size_in_memory raw == 0 then [] else drop 9 raw;
  };
}

abbrev pub after_subseq : Parser → MessageComposed → Parser
after_subseq p raw = record p {
  message_composed_pack = p.message_composed_pack ++ raw ∷ [];
  parsed = record p.parsed { protobuf_data = p.parsed.protobuf_data ++ drop 1 raw };
}

range_in :
    (i j : ℕ) (v : List ℕ) → i ≤ j → j ≤ length v → range i j v ≡ ok (take (j - i) (drop i v))
unfolding range
range_in i j v h k = rw (le→leb i j h, le→leb j (length v) k)

range_past : (i j : ℕ) (v : List ℕ) → i ≤ j → length v < j → range i j v ≡ undefined
unfolding range
range_past i j v h k = rw (le→leb i j h, lt→leb j (length v) k)

module _ (p : Parser) (raw : MessageComposed) where
  parse_first_short : length raw < 9 → parse_first p raw ≡ undefined
  unfolding parse_first
  parse_first_short h = elim (Bool-cases (ltb (length raw) 5)) [
    | inl no_id ↦ rw (range_past 3 5 raw (omega arith) (ltb→lt _ _ no_id))
    | inr id ↦
        rw (range_in 3 5 raw (omega arith) (ltb-false→le _ _ id))
          (rw (range_past 5 9 raw (omega arith) h))
  ]

  parse_first_long : 9 ≤ length raw → parse_first p raw ≡ ok (true, after_first raw)
  unfolding parse_first
  parse_first_long h = rw (range_in 3 5 raw (omega arith) (omega arith)) (
      rw (range_in 5 9 raw (omega arith) h) (elim (Bool-cases (size_in_memory raw == 0)) [
        | inl zero_size ↦ rw zero_size
        | inr sized ↦ rw sized (
            rw (
              range_in 9 (length raw) raw h (omega arith),
              take-all (length raw - 9) (drop 9 raw) (omega (arith, length-drop 9 raw)),
            ))
      ]))

parse_subseq_lem :
    (p : Parser) (raw : MessageComposed)
    → 1 ≤ length raw
    → parse_subseq p raw
      ≡ ok (
          if starts_sequel raw && leb (length raw - 1 + 63) p.parsed.size
          then (true, after_subseq p raw)
          else (false, p))
unfolding parse_subseq
parse_subseq_lem p [] h = elim h [ ]
parse_subseq_lem p (b ∷ bs) h = refl

-- What `parse_legacy` does on every branch. It compares the first three bytes, which is undefined
-- for less; a first packet of less than 9 bytes takes the reads of the id and the size past the end.
-- A first packet forgets all earlier ones. Another one is kept, and its data are added, if it begins
-- with "?" and its size + 62 is at most the size announced; else the call returns false and changes
-- nothing.
pub parse_legacy_lem :
    (p : Parser) (raw : MessageComposed)
    → parse_legacy p raw ≡ (
        if ltb (length raw) 3
        then undefined
        else if is_first raw
        then (if ltb (length raw) 9 then undefined else ok (true, after_first raw))
        else ok (
            if starts_sequel raw && leb (length raw - 1 + 63) p.parsed.size
            then (true, after_subseq p raw)
            else (false, p)))
unfolding parse_legacy
parse_legacy_lem p raw = elim (Bool-cases (ltb (length raw) 3)) [
  | inl short ↦ rw (short, range_past 0 3 raw (omega arith) (ltb→lt _ _ short))
  | inr some_head ↦
      let head = ltb-false→le (length raw) 3 some_head in
      rw (some_head, range_in 0 3 raw (omega arith) head)
        (elim (Bool-cases (is_first raw)) [
          | inl first ↦ rw first (elim (Bool-cases (ltb (length raw) 9)) [
            | inl cut ↦ rw (cut, parse_first_short p raw (ltb→lt _ _ cut))
            | inr whole ↦ rw (whole, parse_first_long p raw (ltb-false→le _ _ whole))
          ])
          | inr other ↦ rw (other, parse_subseq_lem p raw (omega arith))
        ])
]

pub parse_legacy-first :
    (p : Parser) (raw : MessageComposed)
    → 9 ≤ length raw
    → is_first raw ≡ true
    → parse_legacy p raw ≡ ok (true, after_first raw)
parse_legacy-first p raw long first =
    parse_legacy_lem p raw
    ∙ rw (le→ltb-false (length raw) 3 (omega arith), first, le→ltb-false (length raw) 9 long)
