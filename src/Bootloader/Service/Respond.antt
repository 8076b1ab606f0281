-- ===== src/Bootloader/Service/Respond.antt =====
-- The answer to a packet of the host.
use firmware_x.Prelude.{
  ℕ, ◌-◌, ◌+◌, ◌&&◌, leb, ◌^◌, ◌≡◌, ◌<◌, ◌≤◌, refl, ap, ◌∙◌, Bool-cases, inl, inr, Bool, true,
  false, some, ok, undefined, lt→ltb, le→ltb-false, length, List, [], ◌∷◌, arith, if◌then◌else◌,
}
use firmware_x.System.{Env, History, Exit, next, return_false, thrown, then_run}
use firmware_x.System.Monad
use firmware_x.Protocol.{MessageComposed}
use firmware_x.Protocol.Parser.{Parser, parse_legacy}
use firmware_x.Protocol.Parser.Cases.{
  parse_legacy_lem, is_first, starts_sequel, after_first, after_subseq,
}
use firmware_x.Protocol.Composer.{Composer, get_composed}
use firmware_x.Protocol.Host.{compose-host_decode, host_decode}
use firmware_x.Functionfs.{Handler}
use firmware_x.Functionfs.Aio.{write_host}
use firmware_x.Functionfs.Aio.Pointers.{Pointers, write_host-Pointers}
use firmware_x.Bootloader.{Bootloader, with_ffs}
use firmware_x.Bootloader.Service.{
  Generated, parse_request, compose_response, response, respond, put_host,
}

-- What the parser returns, and what it is then, after a packet of 9 bytes or more.
abbrev parsed_packet : Parser → List ℕ → Bool × Parser
parsed_packet p raw =
    if is_first raw
    then (true, after_first raw)
    else (if starts_sequel raw && leb (length raw - 1 + 63) p.parsed.size
        then (true, after_subseq p raw)
        else (false, p))

parse_legacy-long :
    (p : Parser) (raw : List ℕ) → 9 ≤ length raw → parse_legacy p raw ≡ ok (parsed_packet p raw)
parse_legacy-long p raw long =
    parse_legacy_lem p raw
    ∙ rw (le→ltb-false (length raw) 3 (omega arith), le→ltb-false (length raw) 9 long)
        (elim (Bool-cases (is_first raw)) [ inl first ↦ rw first | inr other ↦ rw other ])

module _ (env : Env) (generated : Generated) (packet : List ℕ) (b : Bootloader) (h : History) where
  -- A packet of less than three bytes from the host is undefined behaviour: the parser compares three.
  pub short_packet_undefined :
      length packet < 3 → respond env generated packet b h ≡ (Monad.undefined, b, h)
  unfolding respond parse_request
  short_packet_undefined short =
      let parsed : parse_legacy b.parser_h packet ≡ undefined =
        parse_legacy_lem b.parser_h packet ∙ rw (lt→ltb (length packet) 3 short) in
      rw parsed

  -- A packet of 9 bytes or more from the host, whatever it says and whether the parser takes it or not,
  -- is answered by the whole message of the features, if that has from 55 to 2 ^ 32 - 1 bytes: the
  -- packets that are written to the host, by `put_host`, decode to it.
  pub answer_reaches_host :
      9 ≤ length packet
      → 55 ≤ length generated.feature_serialized
      → length generated.feature_serialized < 2 ^ 32
      → (p : Parser) × (c : Composer) × (respond env generated packet b h
          ≡ put_host env generated (get_composed c) (record b { parser_h = p; composer_h = c }) h)
        × (host_decode (get_composed c) ≡ some (response env generated))
  unfolding respond parse_request compose_response
  answer_reaches_host long enough fits =
      let m = response env generated in
      let fit : m.size ≡ length generated.feature_serialized = omega arith in
      let (c, composed, kept, decodes) =
        compose-host_decode b.composer_h m (omega arith) (omega arith) enough (omega arith) in
      (
        (parsed_packet b.parser_h packet).1,
        c,
        rw (parse_legacy-long b.parser_h packet long, composed),
        decodes,
      )

pub put_host-next :
    (env : Env) (generated : Generated) (rest : List MessageComposed) (b : Bootloader)
    (r : Exit (Bool × List ℕ) × Handler × History)
    → ((x : Bool) × (r.0 ≡ next (x, [])))
    → then_run (with_ffs b r) (λ (w : Bool × List ℕ). put_host env generated rest)
      ≡ put_host env generated rest (record b { ffs_h = r.1 }) r.2
put_host-next env generated rest b (next w, s, h) e = refl
put_host-next env generated rest b (return_false, s, h) (x, e) = absurd (ground arith)
put_host-next env generated rest b (thrown, s, h) (x, e) = absurd (ground arith)
put_host-next env generated rest b (Monad.undefined, s, h) (x, e) = absurd (ground arith)

-- Once the handler's pointers are set, all packets of an answer are put to the host, whatever becomes
-- of the writes, and `put_host` returns.
pub put_host_returns :
    (env : Env) (generated : Generated) (packets : List MessageComposed) (b : Bootloader)
    (h : History)
    → Pointers b.ffs_h
    → (put_host env generated packets b h).0 ≡ next tt
unfolding put_host
put_host_returns env generated [] b h p = refl
put_host_returns env generated (packet ∷ rest) b h p =
    let (result, kept) = write_host-Pointers env packet b.ffs_h h p in
    let r = write_host env packet b.ffs_h h in
    ap (λ (x : Exit (Unit {0}) × Bootloader × History). x.0)
      (put_host-next env generated rest b r result)
    ∙ put_host_returns env generated rest (record b { ffs_h = r.1 }) r.2 kept
