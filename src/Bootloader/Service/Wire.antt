-- ===== src/Bootloader/Service/Wire.antt =====
-- What an answer puts on the wire: the blocks that are submitted to the kernel.
use firmware_x.Prelude.{
  ℕ, ◌^◌, ◌≡◌, ◌<◌, ◌≤◌, refl, ap, ◌∙◌, List, [], ◌∷◌, map, some, length, arith,
}
use firmware_x.System.{Env, Env-plain, plain, History, Iocb, io_submit, Exit, next}
use firmware_x.Protocol.{MessageComposed}
use firmware_x.Protocol.Composer.{get_composed}
use firmware_x.Protocol.Host.{host_decode}
use firmware_x.Functionfs.{Handler}
use firmware_x.Functionfs.Aio.{write_host}
use firmware_x.Functionfs.Aio.Transfers.{write_block}
use firmware_x.Functionfs.Aio.States.{write_host_state}
use firmware_x.Functionfs.Aio.Pointers.{Pointers, write_host-Pointers}
use firmware_x.Functionfs.Serving.{write_host-Serving}
use firmware_x.Bootloader.{Bootloader}
use firmware_x.Bootloader.Service.{Generated, response, respond, put_host}
use firmware_x.Bootloader.Service.Respond.{answer_reaches_host, put_host-next, put_host_returns}

-- The control blocks submitted, the latest first.
unfoldable pub blocks : History → List Iocb
blocks [] = []
blocks (io_submit c block ∷ h) = block ∷ blocks h
blocks (_ ∷ h) = blocks h

-- One after the other onto those before.
unfoldable pub pushed {ℓ} : {A : Type ℓ} → List A → List A → List A
pushed [] before = before
pushed (x ∷ xs) before = pushed xs (x ∷ before)

write_host-blocks :
    (env : Env) (buffer : List ℕ) (s : Handler) (h : History)
    → Pointers s
    → blocks (write_host env buffer s h).2 ≡ write_block env s buffer ∷ blocks h
unfolding blocks
write_host-blocks env buffer s h p =
    let (state, calls) = write_host_state env buffer s h p in ground (arith, calls)

plain-write_block-kept :
    (env : Env) (first : List ℕ) (s : Handler) (h : History)
    → Pointers s
    → write_block (plain env) (write_host (plain env) first s h).1 ≡ write_block (plain env) s
plain-write_block-kept env first s h p =
    ap (λ t. write_block (plain env) t) (write_host-Serving env first s h p).frame

write_block-kept :
    (env : Env) (first : List ℕ) (s : Handler) (h : History)
    → Pointers s
    → write_block env (write_host env first s h).1 ≡ write_block env s
write_block-kept env = rw (Env-plain env) (plain-write_block-kept env)

put_host-blocks :
    (env : Env) (generated : Generated) (packets : List MessageComposed) (b : Bootloader)
    (h : History)
    → Pointers b.ffs_h
    → blocks (put_host env generated packets b h).2
      ≡ pushed (map (write_block env b.ffs_h) packets) (blocks h)
unfolding put_host pushed
put_host-blocks env generated [] b h p = refl
put_host-blocks env generated (packet ∷ rest) b h p =
    let (result, kept) = write_host-Pointers env packet b.ffs_h h p in
    let r = write_host env packet b.ffs_h h in
    ap (λ (x : Exit (Unit {0}) × Bootloader × History). blocks x.2)
      (put_host-next env generated rest b r result)
    ∙ put_host-blocks env generated rest (record b { ffs_h = r.1 }) r.2 kept
    ∙ rw (write_block-kept env packet b.ffs_h h p, write_host-blocks env packet b.ffs_h h p) refl

module _ (env : Env) (generated : Generated) (packet : List ℕ) (b : Bootloader) (h : History) where
  -- Once the handler's pointers are set, a packet of 9 bytes or more from the host, whatever it says
  -- and whether the parser takes it or not, is answered by the whole message of the features, if that
  -- has from 55 to 2 ^ 32 - 1 bytes: `respond` returns, and the blocks that it submits are just one
  -- write to the in pipe for each of some packets, in order, which decode to the message. So it is
  -- whatever becomes of the writes.
  pub answer_is_sent :
      Pointers b.ffs_h
      → 9 ≤ length packet
      → 55 ≤ length generated.feature_serialized
      → length generated.feature_serialized < 2 ^ 32
      → (packets : List MessageComposed) × ((respond env generated packet b h).0 ≡ next tt)
        × (blocks (respond env generated packet b h).2
            ≡ pushed (map (write_block env b.ffs_h) packets) (blocks h))
        × (host_decode packets ≡ some (response env generated))
  answer_is_sent set long enough fits =
      let (p, c, answers, decodes) =
        answer_reaches_host env generated packet b h long enough fits in
      let t = record b { parser_h = p; composer_h = c } in
      (
        get_composed c,
        ap (λ (r : Exit (Unit {0}) × Bootloader × History). r.0) answers
            ∙ put_host_returns env generated (get_composed c) t h set,
        ap (λ (r : Exit (Unit {0}) × Bootloader × History). blocks r.2) answers
            ∙ put_host-blocks env generated (get_composed c) t h set,
        decodes,
      )
