-- ===== src/Bootloader/Traffic.antt =====
-- The transfers of the bootloader of onekey_usb_bootloader_mode.hpp, and the time that it gives to one.
use firmware_x.Prelude.{◌≡◌, ◌∙◌, ap, true, arith}
use firmware_x.Prelude.Int.{pos}
use firmware_x.System.{Env, History, Pointer, next}
use firmware_x.System.Traffic.{transfers}
use firmware_x.Functionfs.{Handler}
use firmware_x.Functionfs.Mount.Init.{Mounted}
use firmware_x.Configfs.{ConfigfsHandle}
use firmware_x.Configfs.Setup.{Configured, udc_calls, made_calls}
use firmware_x.Bootloader.{Bootloader, init}
use firmware_x.Bootloader.Setup.{with_descriptors, bootloader_init-Running}

transfers-udc_calls : (s u : Pointer) (h : History) → transfers (udc_calls s u h) ≡ transfers h
unfolding transfers
transfers-udc_calls s u h = ground arith

transfers-Configured :
    (t t' : ConfigfsHandle) (h h' : History) → Configured t t' h h' → transfers h' ≡ transfers h
unfolding transfers
transfers-Configured t t' h h' c =
    ap transfers c.calls ∙ transfers-udc_calls t'.s t'.u (made_calls t t' h)

transfers-Mounted :
    (env : Env) (s m : Handler) (h i : History) → Mounted env s m h i → transfers i ≡ transfers h
unfolding transfers
transfers-Mounted env s m h i mounted = ground (arith, mounted.calls)

-- `init` of the bootloader makes no transfer, and leaves the handler with 60 seconds for each.
pub transfers-init :
    (env : Env) (b b' : Bootloader) (h h' : History)
    → init env b h ≡ (next true, b', h')
    → (transfers h' ≡ transfers h) × (b'.ffs_h.aio_timeout_ms ≡ pos 60000)
unfolding transfers
transfers-init env b b' h h' e =
    let run = bootloader_init-Running env b b' h h' e in
    let up = run.ready in
    let mounting =
      transfers-Mounted env (with_descriptors env.uapi b.ffs_h) up.m run.h1 up.i up.mounted in
    let setting = transfers-Configured _ b'.cfs_h h run.h1 run.configured in
    let timeout = λ (s : Handler). s.aio_timeout_ms in
    (
      ap transfers run.calls ∙ ap transfers up.calls ∙ mounting ∙ setting,
      ap timeout up.handler ∙ ap timeout up.mounted.opened.frame,
    )
