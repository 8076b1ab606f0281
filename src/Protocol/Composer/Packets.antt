-- ===== src/Protocol/Composer/Packets.antt =====
-- The packets of a message, as the comments of `compose_legacy` describe them: 55 bytes of the data
-- in the first, 63 in each that follows, and zeros to the end of the last.
use firmware_x.Prelude.{
  ℕ, zero, suc, ◌+◌, ◌-◌, ◌*◌, ◌/◌, ◌≤◌, ◌<◌, ◌≡◌, sym, ap, ◌∙◌, inl, inr, List, [], ◌∷◌, ◌++◌,
  append-nil, append_assoc, true, false, ok, undefined, arith, leb, ◌==◌, le→leb, lt→leb,
  Bool-cases, leb→le, leb-false→lt, lt→ltb, length, length-append, length-take, length-drop,
  length-replicate, take, drop, take-all, drop-drop, replicate, if◌then◌else◌,
}
use firmware_x.Protocol.{MessageComposed, MessageParsed, header_magic, range, byte_of}
use firmware_x.Protocol.Composer.{
  Composer, first_pack, subseq_pack, compose_subseq, compose_legacy, bytes_composed, push_back,
}

-- The packet after the first that carries the start of `xs`.
unfoldable pub sequel_packet : List ℕ → MessageComposed
sequel_packet xs = 0x3f ∷ take 63 xs ++ replicate (63 - length xs) 0

-- The next `k` packets.
unfoldable pub sequel : ℕ → List ℕ → List MessageComposed
sequel zero xs = []
sequel (suc k) xs = sequel_packet xs ∷ sequel k (drop 63 xs)

-- The header of the first packet, its numbers big-endian.
unfoldable pub first_header : MessageParsed → List ℕ
first_header m =
    header_magic
    ++ byte_of m.id 1
      ∷ byte_of m.id 0
      ∷ byte_of m.size 3
      ∷ byte_of m.size 2
      ∷ byte_of m.size 1
      ∷ byte_of m.size 0
      ∷ []

unfoldable pub sequel_count : ℕ → ℕ
sequel_count n = (n - 55 + 62) / 63

unfoldable pub packets : MessageParsed → List MessageComposed
packets m =
    (first_header m ++ take 55 m.protobuf_data)
    ∷ sequel (sequel_count (length m.protobuf_data)) (drop 55 m.protobuf_data)

pub length-sequel_packet : (xs : List ℕ) → length (sequel_packet xs) ≡ 64
unfolding sequel_packet
length-sequel_packet xs = omega (
  arith,
  length-append (take 63 xs) (replicate (63 - length xs) 0),
  length-take 63 xs,
  length-replicate {A = ℕ} (63 - length xs) 0,
)

range_lem : (b n : ℕ) (d : List ℕ) → b + n ≤ length d → range b (b + n) d ≡ ok (take n (drop b d))
unfolding range
range_lem b n d h =
    rw (le→leb b (b + n) (omega arith), le→leb (b + n) (length d) h)
      (ap (λ k. ok (take k (drop b d))) (omega arith))

-- A round of the loop builds the packet of the bytes that are left.
subseq_pack_lem :
    (d : List ℕ) (b : ℕ) → b < length d → subseq_pack d b ≡ ok (sequel_packet (drop b d))
unfolding subseq_pack sequel_packet
subseq_pack_lem d b h = elim (Bool-cases (leb 63 (length d - b))) [
  | inl full ↦
      let le = leb→le 63 (length d - b) full in
      let no_fill : 63 - length (drop b d) ≡ 0 = omega (arith, length-drop b d) in
      rw (full, subseq_pack)
        (rw (range_lem b 63 d (omega arith), no_fill, append-nil (take 63 (drop b d))))
  | inr part ↦
      let short = leb-false→lt 63 (length d - b) part in
      rw (part, subseq_pack)
        (rw (
          range_lem b (length d - b) d (omega arith),
          take-all (length d - b) (drop b d) (omega (arith, length-drop b d)),
          take-all 63 (drop b d) (omega (arith, length-drop b d)),
          length-drop b d,
          lt→ltb (length d - b) 63 short,
        ))
]

module _ (fuel : ℕ) (c : Composer) where
  compose_subseq_done :
      length c.parsed.protobuf_data ≤ bytes_composed c → compose_subseq (suc fuel) c ≡ ok (true, c)
  unfolding compose_subseq
  compose_subseq_done h = rw (le→leb (length c.parsed.protobuf_data) (bytes_composed c) h)

  compose_subseq_step :
      bytes_composed c < length c.parsed.protobuf_data
      → compose_subseq (suc fuel) c
        ≡ compose_subseq fuel
            (push_back c (sequel_packet (drop (bytes_composed c) c.parsed.protobuf_data)))
  unfolding compose_subseq
  compose_subseq_step h =
      rw
        (
          lt→leb (length c.parsed.protobuf_data) (bytes_composed c) h,
          subseq_pack_lem c.parsed.protobuf_data (bytes_composed c) h,
        )
        (rw (length-sequel_packet (drop (bytes_composed c) c.parsed.protobuf_data)))

first_pack_lem :
    (m : MessageParsed)
    → 55 ≤ length m.protobuf_data
    → first_pack m ≡ ok (first_header m ++ take 55 m.protobuf_data)
unfolding first_pack first_header
first_pack_lem m h = rw (range_lem 0 55 m.protobuf_data h)

first_pack_short : (m : MessageParsed) → length m.protobuf_data < 55 → first_pack m ≡ undefined
unfolding first_pack range
first_pack_short m h = rw (lt→leb 55 (length m.protobuf_data) h)

pub length-first_packet :
    (m : MessageParsed)
    → 55 ≤ length m.protobuf_data
    → length (first_header m ++ take 55 m.protobuf_data) ≡ 64
unfolding first_header
length-first_packet m h = omega (arith, length-take 55 m.protobuf_data)

-- The loop, begun with one packet and `ps`, adds the packets that are left and ends by its test.
compose_subseq_lem :
    (k fuel : ℕ) (p : MessageComposed) (ps : List MessageComposed) (m : MessageParsed)
    → k < fuel
    → length m.protobuf_data ≤ 55 + length ps * 63 + k * 63
    → 55 + length ps * 63 + k * 63 < length m.protobuf_data + 63
    → compose_subseq fuel (record { message_composed_pack = p ∷ ps; parsed = m })
      ≡ ok (
        true,
        record {
          message_composed_pack = p ∷ ps ++ sequel k (drop (55 + length ps * 63) m.protobuf_data);
          parsed = m;
        },
      )
unfolding sequel
compose_subseq_lem zero (suc fuel) p ps m hf lo hi =
    let c : Composer = record { message_composed_pack = p ∷ ps; parsed = m } in
    rw (compose_subseq_done fuel c (omega arith), append-nil ps)
compose_subseq_lem (suc k) (suc fuel) p ps m hf lo hi =
    let c : Composer = record { message_composed_pack = p ∷ ps; parsed = m } in
    let b : bytes_composed c ≡ 55 + length ps * 63 = omega arith in
    let next = sequel_packet (drop (55 + length ps * 63) m.protobuf_data) in
    let grown = length-append ps (next ∷ []) in
    let after : length (ps ++ next ∷ []) * 63 ≡ length ps * 63 + 63 = omega (arith, grown) in
    let rest : drop (55 + length (ps ++ next ∷ []) * 63) m.protobuf_data
        ≡ drop 63 (drop (55 + length ps * 63) m.protobuf_data) =
      ap (λ n. drop n m.protobuf_data) (omega arith)
      ∙ sym (drop-drop (55 + length ps * 63) 63 m.protobuf_data) in
    rw (compose_subseq_step fuel c (omega arith), b)
      (compose_subseq_lem k fuel p (ps ++ next ∷ []) m (omega arith) (omega arith) (omega arith)
        ∙ rw (rest, append_assoc ps (next ∷ [])))
compose_subseq_lem k zero p ps m hf lo hi = elim hf [ ]

-- What `compose_legacy` does on every branch. A size that is not that of the data is refused, and
-- nothing changes. Data of less than 55 bytes take the copy for the first packet past the end of
-- the vector. Any other message is composed, into the packets of `packets`, and kept.
pub compose_legacy_lem :
    (c : Composer) (m : MessageParsed)
    → compose_legacy c m ≡ (
        if length m.protobuf_data == m.size
        then (if leb 55 (length m.protobuf_data)
            then ok (true, record { message_composed_pack = packets m; parsed = m })
            else undefined)
        else ok (false, c))
unfolding compose_legacy packets sequel_count
compose_legacy_lem c m = elim (Bool-cases (length m.protobuf_data == m.size)) [
  | inr other ↦ rw other
  | inl sized ↦ rw sized (elim (Bool-cases (leb 55 (length m.protobuf_data))) [
    | inl long ↦
        let enough = leb→le 55 _ long in
        rw (long, first_pack_lem m enough)
          (rw (length-first_packet m enough) (
            compose_subseq_lem (sequel_count (length m.protobuf_data))
              (suc (length m.protobuf_data)) (first_header m ++ take 55 m.protobuf_data) [] m
              (omega arith) (omega arith) (omega arith)))
    | inr short ↦ rw (short, first_pack_short m (leb-false→lt _ _ short))
  ])
]
