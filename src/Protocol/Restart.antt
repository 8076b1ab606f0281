-- ===== src/Protocol/Restart.antt =====
-- A message whose data look like the start of another one.
use firmware_x.Prelude.{
  ℕ, zero, suc, ◌-◌, ◌<◌, ◌≡◌, ◌∙◌, refl, ap, sym, List, ◌∷◌, ◌++◌, true, ok, arith, length,
  length-drop, take, drop,
}
use firmware_x.Protocol.{MessageComposed, MessageParsed}
use firmware_x.Protocol.Composer.{Composer, compose_legacy, get_composed}
use firmware_x.Protocol.Composer.Packets.{
  sequel, sequel_count, sequel_packet, first_header, packets,
}
use firmware_x.Protocol.Composer.Success.{compose_legacy-true}
use firmware_x.Protocol.Parser.{Parser, parse_legacy}
use firmware_x.Protocol.Parser.Cases.{after_first}
use firmware_x.Protocol.Endian.{sequel_taken_for_first}

sequel-some :
    (k : ℕ) (xs : List ℕ)
    → 0 < k
    → (j : ℕ) × (sequel k xs ≡ sequel_packet xs ∷ sequel j (drop 63 xs))
unfolding sequel
sequel-some zero xs h = absurd (omega arith)
sequel-some (suc k) xs h = (k, refl)

-- A message that the composer accepts, and whose data go on with "##" behind the first 55 bytes: it has
-- a second packet, and a parser, from any state, takes that for the first packet of another message,
-- and drops all that it has collected.
pub second_packet_restarts :
    (c c' : Composer) (m : MessageParsed) (xs : List ℕ) (p : Parser)
    → compose_legacy c m ≡ ok (true, c')
    → drop 55 m.protobuf_data ≡ 0x23 ∷ 0x23 ∷ xs
    → (first raw : MessageComposed) × (rest : List MessageComposed) × (get_composed c'
        ≡ first ∷ raw ∷ rest)
      × (parse_legacy p raw ≡ ok (true, after_first raw))
unfolding packets sequel_count
second_packet_restarts c c' m xs p composed data_is =
    let done = compose_legacy-true c c' m composed in
    let n = length m.protobuf_data in
    let k = sequel_count n in
    let left : n - 55 ≡ suc (suc (length xs)) =
      sym (length-drop 55 m.protobuf_data) ∙ ap length data_is in
    let some_left : 0 < k = omega (arith, left) in
    let ys = 0x23 ∷ 0x23 ∷ xs in
    let (j, seen) = sequel-some k ys some_left in
    (
      first_header m ++ take 55 m.protobuf_data,
      sequel_packet ys,
      sequel j (drop 63 ys),
      ap get_composed done.result
          ∙ ap (λ zs. (first_header m ++ take 55 m.protobuf_data) ∷ sequel k zs) data_is
          ∙ ap (λ zs. (first_header m ++ take 55 m.protobuf_data) ∷ zs) seen,
      sequel_taken_for_first p xs,
    )
