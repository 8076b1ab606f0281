-- ===== src/Protocol/Examples.antt =====
-- Runs of the parser and the composer, and the theorems at concrete inputs. `features` has the length
-- of the message in the log of Readme.md.
use firmware_x.Prelude.{
  ℕ, ◌/◌, ◌%◌, ◌<◌, ◌≡◌, ◌↔◌, refl, List, [], ◌∷◌, ◌++◌, true, false, some, ok, undefined, arith,
  length, All, replicate,
}
use firmware_x.Protocol.{
  MessageComposed, MessageParsed, message_reset, packet_size, range, from_memory, byte_of,
}
use firmware_x.Protocol.Composer.{
  Composer, compose_legacy, first_pack, subseq_pack, compose_subseq, get_composed, get_parsed,
}
use firmware_x.Protocol.Composer.Packets.{
  packets, sequel, sequel_packet, sequel_count, compose_legacy_lem,
}
use firmware_x.Protocol.Composer.Success.{compose_packets_shape}
use firmware_x.Protocol.Host.{host_decode, wire_data, zero_byte, compose-host_decode}
use firmware_x.Protocol.Parser.{Parser, parse_first, parse_legacy}
use firmware_x.Protocol.Parser.Cases.{after_first, parse_legacy_lem}
use firmware_x.Protocol.Parser.State.{IsFaithful, feed, parse_legacy-IsFaithful, feed-IsFaithful}
use firmware_x.Protocol.Restart.{second_packet_restarts}
use firmware_x.Protocol.Endian.{loopback_first, loopback_feed}

abbrev features : MessageParsed
features = record { id = 17; size = 84; protobuf_data = replicate 84 7 }

abbrev fresh_composer : Composer
fresh_composer = record { message_composed_pack = []; parsed = message_reset }

abbrev fresh_parser : Parser
fresh_parser = record { message_composed_pack = []; parsed = message_reset }

abbrev done_composer : Composer
done_composer = record { message_composed_pack = packets features; parsed = features }

features_composed : compose_legacy fresh_composer features ≡ ok (true, done_composer)
features_composed = compose_legacy_lem fresh_composer features

-- The two packets of the log: a header with the size 84, and a packet with 29 bytes and the fill.
features_packets :
    compose_legacy fresh_composer features
    ≡ ok (
      true,
      record {
        message_composed_pack =
            (0x3f ∷ 0x23 ∷ 0x23 ∷ 0x00 ∷ 0x11 ∷ 0x00 ∷ 0x00 ∷ 0x00 ∷ 0x54 ∷ replicate 55 7)
            ∷ (0x3f ∷ replicate 29 7 ++ replicate 34 0)
            ∷ [];
        parsed = features;
      },
    )
unfolding compose_legacy first_pack compose_subseq subseq_pack range byte_of
features_packets = refl

-- A message of 20 bytes is copied past the end of its data.
short_message :
    compose_legacy fresh_composer (record { id = 2; size = 20; protobuf_data = replicate 20 7 })
    ≡ undefined
unfolding compose_legacy first_pack range
short_message = refl

-- The Initialize message of the log.
initialize_parsed :
    parse_legacy fresh_parser (0x3f ∷ 0x23 ∷ 0x23 ∷ replicate 61 0)
    ≡ ok (
      true,
      record {
        message_composed_pack = (0x3f ∷ 0x23 ∷ 0x23 ∷ replicate 61 0) ∷ [];
        parsed = message_reset;
      },
    )
unfolding parse_legacy parse_first range from_memory
initialize_parsed = refl

compose-host_decode_example :
    (c' : Composer) × (compose_legacy fresh_composer features ≡ ok (true, c'))
    × (get_parsed c' ≡ features)
    × (host_decode (get_composed c') ≡ some features)
compose-host_decode_example =
    compose-host_decode fresh_composer features (omega arith) (omega arith) (omega arith) refl

compose_packets_shape_example :
    All (λ p. length p ≡ packet_size) (get_composed done_composer)
    × (length (get_composed done_composer) ≡ 2)
compose_packets_shape_example =
    compose_packets_shape fresh_composer done_composer features features_composed

compose_legacy_lem_example :
    compose_legacy done_composer (record features { size = 83 }) ≡ ok (false, done_composer)
compose_legacy_lem_example = compose_legacy_lem done_composer (record features { size = 83 })

parse_legacy_lem_example : parse_legacy fresh_parser (0x3f ∷ 0x23 ∷ 0x23 ∷ 1 ∷ []) ≡ undefined
parse_legacy_lem_example = parse_legacy_lem fresh_parser (0x3f ∷ 0x23 ∷ 0x23 ∷ 1 ∷ [])

-- A first packet that announces 200 bytes, and one that follows it.
abbrev start_packet : MessageComposed
start_packet = 0x3f ∷ 0x23 ∷ 0x23 ∷ 6 ∷ 0 ∷ 200 ∷ 0 ∷ 0 ∷ 0 ∷ replicate 55 1

abbrev next_packet : MessageComposed
next_packet = 0x3f ∷ replicate 63 2

abbrev started : Parser
started = after_first start_packet

started-IsFaithful : IsFaithful started
unfolding from_memory wire_data
started-IsFaithful = refl

parse_legacy-IsFaithful_example : IsFaithful started
parse_legacy-IsFaithful_example =
    parse_legacy-IsFaithful fresh_parser started start_packet true refl
      (parse_legacy_lem fresh_parser start_packet)

feed-IsFaithful_example : IsFaithful started
unfolding feed
feed-IsFaithful_example =
    feed-IsFaithful (start_packet ∷ []) fresh_parser started refl
      (rw (parse_legacy_lem fresh_parser start_packet))

loopback_first_example :
    (first : MessageComposed) × (rest : List MessageComposed) × (p' : Parser) × (get_composed
        done_composer
      ≡ first ∷ rest)
    × (parse_legacy fresh_parser first ≡ ok (true, p'))
    × (p'.parsed ≡ record { id = 0x1100; size = 0x54000000; protobuf_data = replicate 55 7 })
    × ((p'.parsed.id ≡ 17) ↔ (17 / 256 ≡ 17 % 256))
loopback_first_example =
    loopback_first fresh_composer done_composer fresh_parser features features_composed
      (omega arith) (omega arith)

loopback_feed_example :
    (p' : Parser) × (n : ℕ) × (n < 63)
    × (feed (get_composed done_composer) fresh_parser ≡ ok p')
    × (p'.parsed ≡ record {
      id = 0x1100;
      size = 0x54000000;
      protobuf_data = replicate 84 7 ++ replicate n zero_byte;
    })
unfolding packets sequel sequel_packet sequel_count
loopback_feed_example =
    loopback_feed fresh_composer done_composer fresh_parser features features_composed (omega arith)
      (omega arith) (omega arith) (refl, tt)

-- Two bytes behind the first packet that look like the header.
abbrev restarting : MessageParsed
restarting = record { id = 2; size = 57; protobuf_data = replicate 55 7 ++ 0x23 ∷ 0x23 ∷ [] }

second_packet_restarts_example :
    (first raw : MessageComposed) × (rest : List MessageComposed) × (packets restarting
      ≡ first ∷ raw ∷ rest)
    × (parse_legacy started raw ≡ ok (true, after_first raw))
second_packet_restarts_example =
    second_packet_restarts fresh_composer
      (record { message_composed_pack = packets restarting; parsed = restarting }) restarting []
      started (compose_legacy_lem fresh_composer restarting) refl
