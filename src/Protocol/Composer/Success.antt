-- ===== src/Protocol/Composer/Success.antt =====
-- When `compose_legacy` returns true, and the shape of the packets that it then holds.
use firmware_x.Prelude.{
  ℕ, zero, suc, ◌+◌, ◌-◌, ◌/◌, ◌≤◌, ◌≡◌, refl, ap, List, true, ok, arith, length, All, drop,
}
use firmware_x.Protocol.{MessageParsed, packet_size}
use firmware_x.Protocol.Composer.{Composer, compose_legacy, get_composed}
use firmware_x.Protocol.Composer.Packets.{
  length-sequel_packet, length-first_packet, sequel, sequel_count, packets, compose_legacy_lem,
}

pub record Composed (m : MessageParsed) (c' : Composer) : Type 0 where
  pub sized : length m.protobuf_data ≡ m.size
  pub long : 55 ≤ length m.protobuf_data
  pub result : c' ≡ record { message_composed_pack = packets m; parsed = m }

pub compose_legacy-true :
    (c c' : Composer) (m : MessageParsed) → compose_legacy c m ≡ ok (true, c') → Composed m c'
compose_legacy-true c c' m h = ground (arith, compose_legacy_lem c m)

sequel-All-size : (k : ℕ) (xs : List ℕ) → All (λ p. length p ≡ packet_size) (sequel k xs)
unfolding sequel
sequel-All-size zero xs = tt
sequel-All-size (suc k) xs = (length-sequel_packet xs, sequel-All-size k (drop 63 xs))

length-sequel : (k : ℕ) (xs : List ℕ) → length (sequel k xs) ≡ k
unfolding sequel
length-sequel zero xs = refl
length-sequel (suc k) xs = ap suc (length-sequel k (drop 63 xs))

packets_shape :
    (m : MessageParsed)
    → 55 ≤ length m.protobuf_data
    → All (λ p. length p ≡ packet_size) (packets m)
      × (length (packets m) ≡ 1 + (length m.protobuf_data - 55 + 62) / 63)
unfolding packets sequel_count
packets_shape m long =
    let k = (length m.protobuf_data - 55 + 62) / 63 in
    let rest = drop 55 m.protobuf_data in
    ((length-first_packet m long, sequel-All-size k rest), omega (arith, length-sequel k rest))

-- Whenever the composer returns true, from any earlier state, every packet that it holds has 64
-- bytes, and there are just as many as the data need: one for the first 55 bytes, and one for each
-- further 63 bytes or part of 63.
pub compose_packets_shape :
    (c c' : Composer) (m : MessageParsed)
    → compose_legacy c m ≡ ok (true, c')
    → All (λ p. length p ≡ packet_size) (get_composed c')
      × (length (get_composed c') ≡ 1 + (length m.protobuf_data - 55 + 62) / 63)
compose_packets_shape c c' m h =
    let done = compose_legacy-true c c' m h in rw done.result (packets_shape m done.long)
