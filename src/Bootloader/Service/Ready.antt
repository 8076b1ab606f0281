-- ===== src/Bootloader/Service/Ready.antt =====
-- The answer to a packet, once `init` of the bootloader has returned true.
use firmware_x.Prelude.{ℕ, ◌^◌, ◌≡◌, ◌<◌, ◌≤◌, ◌∙◌, ap, List, true, length}
use firmware_x.System.{Env, History, Exit, next}
use firmware_x.Functionfs.{Handler}
use firmware_x.Functionfs.Aio.Pointers.{Pointers}
use firmware_x.Functionfs.Lifecycle.Ready.{Ready}
use firmware_x.Protocol.Composer.{get_composed}
use firmware_x.Bootloader.{Bootloader, init}
use firmware_x.Bootloader.Setup.{bootloader_init-Running}
use firmware_x.Bootloader.Service.{Generated, respond}
use firmware_x.Bootloader.Service.Respond.{answer_reaches_host, put_host_returns}

pub Ready-Pointers :
    (env : Env) (s s' : Handler) (h h' : History) → Ready env s s' h h' → Pointers s'
Ready-Pointers env s s' h h' ready = record {
  c = (env.answer h').ctx;
  i = env.new_iocb;
  o = env.new_iocb;
  has_ctx = ap (λ (t : Handler). t.ctx) ready.handler;
  has_in = ap (λ (t : Handler). t.iocb_in) ready.handler;
  has_out = ap (λ (t : Handler). t.iocb_out) ready.handler;
}

module _ (env : Env) (generated : Generated) (packet : List ℕ) (k : History) where
  pub respond_returns :
      (b : Bootloader)
      → Pointers b.ffs_h
      → 9 ≤ length packet
      → 55 ≤ length generated.feature_serialized
      → length generated.feature_serialized < 2 ^ 32
      → (respond env generated packet b k).0 ≡ next tt
  respond_returns b pointers long enough fits =
      let (p, c, answers, decodes) =
        answer_reaches_host env generated packet b k long enough fits in
      ap (λ (r : Exit (Unit {0}) × Bootloader × History). r.0) answers
      ∙ put_host_returns env generated (get_composed c) (record b { parser_h = p; composer_h = c })
          k pointers

  -- After `init` of the bootloader has returned true, whatever the outside answers and whatever calls
  -- were made since, a packet of 9 bytes or more from the host is answered without undefined behaviour
  -- or an exception, if the features have from 55 to 2 ^ 32 - 1 bytes.
  pub init_then_respond :
      (b b' : Bootloader) (h h' : History)
      → init env b h ≡ (next true, b', h')
      → 9 ≤ length packet
      → 55 ≤ length generated.feature_serialized
      → length generated.feature_serialized < 2 ^ 32
      → (respond env generated packet b' k).0 ≡ next tt
  init_then_respond b b' h h' up long enough fits =
      let running = bootloader_init-Running env b b' h h' up in
      respond_returns b' (Ready-Pointers env _ b'.ffs_h running.h1 running.h2 running.ready) long
        enough fits
