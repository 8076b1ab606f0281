-- ===== src/Protocol/Endian.antt =====
-- The parser fed with the packets of the composer. The composer writes the id and the size with their
-- high bytes first, as the protocol has them; the parser reads the same bytes as numbers in memory,
-- where on the target the low byte stands first.
use firmware_x.Prelude.{
  ℕ, zero, suc, ◌+◌, ◌*◌, ◌/◌, ◌%◌, ◌^◌, ◌≤◌, ◌<◌, ◌≡◌, ◌↔◌, refl, ap, ◌∙◌, List, ◌∷◌, ◌++◌, true,
  false, ok, arith, pos→==-false, le→leb, length, All, drop, take, replicate,
}
use firmware_x.Protocol.{MessageComposed, MessageParsed, byte_of, from_memory}
use firmware_x.Protocol.Host.{sequel_data, payload_lem, fill_count, fill, zero_byte, fill_count-lt}
use firmware_x.Protocol.Composer.{Composer, compose_legacy, get_composed}
use firmware_x.Protocol.Composer.Success.{compose_legacy-true}
use firmware_x.Protocol.Composer.Packets.{
  first_header, packets, sequel_packet, sequel, sequel_count, length-sequel_packet,
  length-first_packet,
}
use firmware_x.Protocol.Parser.{Parser, parse_legacy}
use firmware_x.Protocol.Parser.State.{feed}
use firmware_x.Protocol.Parser.Cases.{
  id_in_memory, size_in_memory, is_first, after_first, parse_legacy-first,
}
use firmware_x.Protocol.Loopback.{IsSequel, feed-sequel}

-- The two bytes of a uint16_t, and the four of a uint32_t, in the opposite order.
abbrev pub swap16 : ℕ → ℕ
swap16 n = n / 256 + 256 * (n % 256)

abbrev pub swap32 : ℕ → ℕ
swap32 n = n / 2 ^ 24 + 2 ^ 8 * (n / 2 ^ 16 % 256) + 2 ^ 16 * (n / 2 ^ 8 % 256) + 2 ^ 24 * (n % 256)

module _ (m : MessageParsed) where
  id_in_memory-packets :
      m.id < 2 ^ 16 → id_in_memory (first_header m ++ take 55 m.protobuf_data) ≡ swap16 m.id
  unfolding first_header byte_of from_memory
  id_in_memory-packets h = omega arith

  size_in_memory-packets :
      m.size < 2 ^ 32 → size_in_memory (first_header m ++ take 55 m.protobuf_data) ≡ swap32 m.size
  unfolding first_header byte_of from_memory
  size_in_memory-packets h = omega arith

swap32-pos : (n : ℕ) → 0 < n → n < 2 ^ 32 → 0 < swap32 n
swap32-pos n h k = omega arith

-- Two numbers below 256 swap places.
swap16-fixed : (n : ℕ) → n < 2 ^ 16 → (swap16 n ≡ n) ↔ (n / 256 ≡ n % 256)
swap16-fixed n h = (λ e. omega arith, λ e. omega arith)

module _ (m : MessageParsed) where
  parse-first_packet :
      (p : Parser)
      → 55 ≤ length m.protobuf_data
      → parse_legacy p (first_header m ++ take 55 m.protobuf_data)
        ≡ ok (true, after_first (first_header m ++ take 55 m.protobuf_data))
  unfolding first_header
  parse-first_packet p long =
      parse_legacy-first p _ (omega (arith, length-first_packet m long)) refl

  sequel-IsSequel :
      (k : ℕ) (xs : List ℕ)
      → All (λ q. is_first q ≡ false) (sequel k xs)
      → All IsSequel (sequel k xs)
  unfolding sequel sequel_packet
  sequel-IsSequel zero xs plain = tt
  sequel-IsSequel (suc k) xs (p, plain) = (
    record { full = length-sequel_packet xs; marked = refl; not_first = p },
    sequel-IsSequel k (drop 63 xs) plain,
  )

  drop-first_header : (xs : List ℕ) → drop 9 (first_header m ++ xs) ≡ xs
  unfolding first_header
  drop-first_header xs = refl

  -- What the parser takes from the first packet of a message.
  after_first-packets :
      m.id < 2 ^ 16
      → m.size < 2 ^ 32
      → 0 < m.size
      → (after_first (first_header m ++ take 55 m.protobuf_data)).parsed
        ≡ record { id = swap16 m.id; size = swap32 m.size; protobuf_data = take 55 m.protobuf_data }
  after_first-packets id_fits size_fits some_data =
      let positive = swap32-pos m.size some_data size_fits in
      rw (id_in_memory-packets m id_fits, size_in_memory-packets m size_fits)
        (rw (drop-first_header (take 55 m.protobuf_data), pos→==-false (swap32 m.size) positive))

-- The parser accepts the first packet of any message that the composer composed, from any state, but
-- takes the id and the size from it with their bytes in the opposite order. So it has the id of the
-- message exactly if the two bytes of the id are equal.
pub loopback_first :
    (c c' : Composer) (p : Parser) (m : MessageParsed)
    → compose_legacy c m ≡ ok (true, c')
    → m.id < 2 ^ 16
    → m.size < 2 ^ 32
    → (first : MessageComposed) × (rest : List MessageComposed) × (p' : Parser) × (get_composed c'
        ≡ first ∷ rest)
      × (parse_legacy p first ≡ ok (true, p'))
      × (p'.parsed ≡ record {
        id = swap16 m.id;
        size = swap32 m.size;
        protobuf_data = take 55 m.protobuf_data;
      })
      × ((p'.parsed.id ≡ m.id) ↔ (m.id / 256 ≡ m.id % 256))
unfolding packets
loopback_first c c' p m h id_fits size_fits =
    let done = compose_legacy-true c c' m h in
    let first = first_header m ++ take 55 m.protobuf_data in
    let taken = after_first-packets m id_fits size_fits (omega (arith, done.sized, done.long)) in
    (
      first,
      sequel (sequel_count (length m.protobuf_data)) (drop 55 m.protobuf_data),
      after_first first,
      rw done.result,
      parse-first_packet m p done.long,
      taken,
      rw (ap (λ q. q.id) taken) (swap16-fixed m.id id_fits),
    )

feed-packets :
    (p : Parser) (m : MessageParsed)
    → 55 ≤ length m.protobuf_data
    → All (λ q. is_first q ≡ false) (drop 1 (packets m))
    → (after_first (first_header m ++ take 55 m.protobuf_data)).parsed
      ≡ record { id = swap16 m.id; size = swap32 m.size; protobuf_data = take 55 m.protobuf_data }
    → 126 ≤ swap32 m.size
    → (p' : Parser) × (feed (packets m) p ≡ ok p')
      × (p'.parsed ≡ record {
        id = swap16 m.id;
        size = swap32 m.size;
        protobuf_data = m.protobuf_data ++ fill m;
      })
unfolding packets feed
feed-packets p m long plain taken large =
    let first = first_header m ++ take 55 m.protobuf_data in
    let rest = sequel (sequel_count (length m.protobuf_data)) (drop 55 m.protobuf_data) in
    let all =
      sequel-IsSequel m (sequel_count (length m.protobuf_data)) (drop 55 m.protobuf_data) plain in
    let room : 126 ≤ (after_first first).parsed.size =
      rw (ap (λ (q : MessageParsed). q.size) taken) large in
    (
      after_run first rest,
      rw (parse-first_packet m p long)
          (feed-sequel rest (after_first first) all ∙ rw (le→leb 126 _ room)),
      ap (λ (q : MessageParsed). record q { protobuf_data = q.protobuf_data ++ sequel_data rest })
            taken
          ∙ ap (λ d. record { id = swap16 m.id; size = swap32 m.size; protobuf_data = d })
              (payload_lem m long),
    )
  where
    after_run : MessageComposed → List MessageComposed → Parser
    after_run first rest = record {
      message_composed_pack = first ∷ rest;
      parsed = record ((after_first first).parsed) {
        protobuf_data = (after_first first).parsed.protobuf_data ++ sequel_data rest;
      };
    }

-- A whole message, fed to the parser from any state. If the bytes of the size in the opposite order
-- make 126 or more, and no packet after the first begins with "?##", then every packet is taken, and
-- the parser ends with the id and the size in the opposite byte order, and with the data and the
-- zeros behind them, less than 63.
pub loopback_feed :
    (c c' : Composer) (p : Parser) (m : MessageParsed)
    → compose_legacy c m ≡ ok (true, c')
    → m.id < 2 ^ 16
    → m.size < 2 ^ 32
    → 126 ≤ swap32 m.size
    → All (λ q. is_first q ≡ false) (drop 1 (get_composed c'))
    → (p' : Parser) × (n : ℕ) × (n < 63)
      × (feed (get_composed c') p ≡ ok p')
      × (p'.parsed ≡ record {
        id = swap16 m.id;
        size = swap32 m.size;
        protobuf_data = m.protobuf_data ++ replicate n zero_byte;
      })
loopback_feed c c' p m h id_fits size_fits large plain =
    let done = compose_legacy-true c c' m h in
    let taken = after_first-packets m id_fits size_fits (omega (arith, done.sized, done.long)) in
    let (p', fed, parsed) = feed-packets p m done.long (rw done.result at plain) taken large in
    (
      p',
      fill_count (length m.protobuf_data),
      fill_count-lt (length m.protobuf_data) done.long,
      rw done.result fed,
      parsed,
    )

-- A packet that follows the first, and whose data begin with "##", is taken for a first packet: all
-- that was collected is dropped, from any state.
pub sequel_taken_for_first :
    (p : Parser) (xs : List ℕ)
    → parse_legacy p (sequel_packet (0x23 ∷ 0x23 ∷ xs))
      ≡ ok (true, after_first (sequel_packet (0x23 ∷ 0x23 ∷ xs)))
unfolding sequel_packet
sequel_taken_for_first p xs =
    parse_legacy-first p _ (omega (arith, length-sequel_packet (0x23 ∷ 0x23 ∷ xs))) refl
