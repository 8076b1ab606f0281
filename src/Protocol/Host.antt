-- ===== src/Protocol/Host.antt =====
-- The receiving end of the packets that `compose_legacy` makes: an independent description of the
-- wire format, by which a host puts a message together again.
use firmware_x.Prelude.{
  ℕ, zero, suc, ◌+◌, ◌-◌, ◌*◌, ◌^◌, ◌≤◌, ◌<◌, ◌≡◌, refl, sym, ap, ◌∙◌, inl, inr, List, [], ◌∷◌,
  ◌++◌, append-nil, append_assoc, true, ok, arith, leb, ◌==◌, Bool-cases, leb→le, le→leb,
  leb-false→lt, length, map, concat, Option, some, none, length-drop, take, drop, take-all,
  drop-all, take-append, replicate, replicate-append, take-append-drop, same_bytes, if◌then◌else◌,
}
use firmware_x.Protocol.{MessageComposed, MessageParsed, byte_of, header_magic}
use firmware_x.Protocol.Composer.{Composer, compose_legacy, get_composed, get_parsed}
use firmware_x.Protocol.Composer.Success.{compose_legacy-true}
use firmware_x.Protocol.Composer.Packets.{
  sequel_packet, sequel, sequel_count, first_header, packets, compose_legacy_lem,
}

-- The data bytes of the packets after the first.
abbrev pub sequel_data : List MessageComposed → List ℕ
sequel_data ps = concat (map (drop 1) ps)

sequel_data-snoc :
    (ps : List MessageComposed) (q : MessageComposed)
    → sequel_data (ps ++ q ∷ []) ≡ sequel_data ps ++ drop 1 q
sequel_data-snoc [] q = append-nil (drop 1 q)
sequel_data-snoc (p ∷ ps) q = rw (sequel_data-snoc ps q, append_assoc (drop 1 p))

-- "?##", the id in two bytes and the size in four, big-endian, then the data; each further packet is
-- a byte and data; what goes beyond the size is fill.
pub host_decode : List MessageComposed → Option MessageParsed
host_decode ((m0 ∷ m1 ∷ m2 ∷ i1 ∷ i0 ∷ s3 ∷ s2 ∷ s1 ∷ s0 ∷ body) ∷ ps) =
    let size = s3 * 2 ^ 24 + s2 * 2 ^ 16 + s1 * 2 ^ 8 + s0 in
    if same_bytes (m0 ∷ m1 ∷ m2 ∷ []) header_magic
    then some (record {
      id = i1 * 2 ^ 8 + i0;
      size = size;
      protobuf_data = take size (body ++ sequel_data ps);
    })
    else none
host_decode _ = none

abbrev pub zero_byte : ℕ
zero_byte = 0

-- The packets that follow the first carry `xs` in order, then zeros up to their end.
sequel_data-sequel :
    (k : ℕ) (xs : List ℕ)
    → length xs ≤ k * 63
    → sequel_data (sequel k xs) ≡ xs ++ replicate (k * 63 - length xs) 0
unfolding sequel sequel_packet
sequel_data-sequel zero [] h = refl
sequel_data-sequel zero (x ∷ xs) h = absurd (omega arith)
sequel_data-sequel (suc k) xs h =
    let ih = sequel_data-sequel k (drop 63 xs) (omega (arith, length-drop 63 xs)) in
    rw ih (elim (Bool-cases (leb (length xs) 63)) [
      | inl last ↦
          let small = leb→le (length xs) 63 last in
          rw (take-all 63 xs small, drop-all 63 xs small)
            (rw (append_assoc xs, replicate-append (63 - length xs) (k * 63 - 0) zero_byte)
              (ap (λ n. xs ++ replicate n zero_byte) (omega arith)))
      | inr full ↦
          let large = leb-false→lt (length xs) 63 full in
          let no_fill : 63 - length xs ≡ 0 = omega arith in
          rw (no_fill, append-nil (take 63 xs), ← append_assoc (take 63 xs), take-append-drop 63 xs)
            (ap (λ n. xs ++ replicate n zero_byte) (omega (arith, length-drop 63 xs)))
    ])

-- The zeros behind the data in the last packet.
abbrev pub fill_count : ℕ → ℕ
fill_count n = sequel_count n * 63 - (n - 55)

abbrev pub fill : MessageParsed → List ℕ
fill m = replicate (fill_count (length m.protobuf_data)) zero_byte

module _ (m : MessageParsed) where
  -- The data bytes of all packets: those of the message, then less than 63 zeros.
  pub payload_lem :
      55 ≤ length m.protobuf_data
      → take 55 m.protobuf_data
          ++ sequel_data (sequel (sequel_count (length m.protobuf_data)) (drop 55 m.protobuf_data))
        ≡ m.protobuf_data ++ fill m
  unfolding sequel_count
  payload_lem h =
      let rest = drop 55 m.protobuf_data in
      let left = length-drop 55 m.protobuf_data in
      rw (sequel_data-sequel (sequel_count (length m.protobuf_data)) rest (omega arith))
        (rw (← append_assoc (take 55 m.protobuf_data), take-append-drop 55 m.protobuf_data, left))

  id_bytes : m.id < 2 ^ 16 → byte_of m.id 1 * 2 ^ 8 + byte_of m.id 0 ≡ m.id
  unfolding byte_of
  id_bytes h = omega arith

  size_bytes :
      m.size < 2 ^ 32
      → byte_of m.size 3 * 2 ^ 24
          + byte_of m.size 2 * 2 ^ 16
          + byte_of m.size 1 * 2 ^ 8
          + byte_of m.size 0
        ≡ m.size
  unfolding byte_of
  size_bytes h = omega arith

  host_decode-packets :
      m.id < 2 ^ 16
      → m.size < 2 ^ 32
      → 55 ≤ length m.protobuf_data
      → length m.protobuf_data ≡ m.size
      → host_decode (packets m) ≡ some m
  unfolding host_decode packets first_header
  host_decode-packets id_fits size_fits long sized =
      rw (size_bytes size_fits, id_bytes id_fits, payload_lem long)
        (ap (λ d. some (record m { protobuf_data = d }))
          (ap (λ n. take n (m.protobuf_data ++ fill m)) (sym sized)
            ∙ take-append m.protobuf_data (fill m)))

-- A message that the composer accepts reaches a host whole: if the id is a uint16_t and the size a
-- uint32_t, and the size is that of the data, which are 55 bytes or more, then composing succeeds,
-- the composer keeps the message, and the host's description of the format, applied to the packets,
-- gives back the id, the size and the data.
pub compose-host_decode :
    (c : Composer) (m : MessageParsed)
    → m.id < 2 ^ 16
    → m.size < 2 ^ 32
    → 55 ≤ length m.protobuf_data
    → length m.protobuf_data ≡ m.size
    → (c' : Composer) × (compose_legacy c m ≡ ok (true, c'))
      × (get_parsed c' ≡ m)
      × (host_decode (get_composed c') ≡ some m)
compose-host_decode c m id_fits size_fits long sized = (
  record { message_composed_pack = packets m; parsed = m },
  compose_legacy_lem c m ∙ rw (sized_true, le→leb 55 _ long),
  refl,
  host_decode-packets m id_fits size_fits long sized,
)
  where
    sized_true : (length m.protobuf_data == m.size) ≡ true
    sized_true = ground arith

-- The data bytes of a packet sequence: behind the 9 bytes of the first header, and behind the one
-- byte of each other.
unfoldable pub wire_data : List MessageComposed → List ℕ
wire_data [] = []
wire_data (p ∷ ps) = drop 9 p ++ sequel_data ps

pub wire_data-snoc :
    (p : MessageComposed) (ps : List MessageComposed) (q : MessageComposed)
    → wire_data (p ∷ ps ++ q ∷ []) ≡ wire_data (p ∷ ps) ++ drop 1 q
unfolding wire_data
wire_data-snoc p ps q = rw (sequel_data-snoc ps q, append_assoc (drop 9 p))

pub wire_data-packets :
    (m : MessageParsed)
    → 55 ≤ length m.protobuf_data
    → wire_data (packets m) ≡ m.protobuf_data ++ fill m
unfolding wire_data packets first_header
wire_data-packets m long = payload_lem m long

pub fill_count-lt : (n : ℕ) → 55 ≤ n → fill_count n < 63
unfolding sequel_count
fill_count-lt n h = omega arith

-- Whenever the composer returns true, the data bytes of its packets are the data of the message, in
-- order, and then less than 63 zeros.
pub compose-wire_data :
    (c c' : Composer) (m : MessageParsed)
    → compose_legacy c m ≡ ok (true, c')
    → (n : ℕ) × (n < 63) × (wire_data (get_composed c') ≡ m.protobuf_data ++ replicate n zero_byte)
compose-wire_data c c' m h =
    let done = compose_legacy-true c c' m h in
    (
      fill_count (length m.protobuf_data),
      fill_count-lt (length m.protobuf_data) done.long,
      rw done.result (wire_data-packets m done.long),
    )
