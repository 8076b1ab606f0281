-- ===== src/Bootloader/Setup.antt =====
-- The order in which the bootloader sets its parts up, and takes them down.
use firmware_x.Prelude.{refl, ◌≡◌, ◌∙◌, ap, sym, subst, ◌∷◌, Bool, true, arith}
use firmware_x.System.{
  Env, plain, Env-plain, History, Exit, next, ◌>>=◌, ◌>>◌, modify, advance, method-true,
  required-next, required-last, usbg_enable_gadget, M, Uapi,
}
use firmware_x.Prelude.Int.{pos}
use firmware_x.Functionfs.{Handler, aio_set_timeout}
use firmware_x.Functionfs.Lifecycle
use firmware_x.Functionfs.Lifecycle.Ready.{Ready, handler_init-Ready}
use firmware_x.Configfs
use firmware_x.Configfs.{ConfigfsHandle}
use firmware_x.Configfs.Setup.{Configured, configfs_init-true}
use firmware_x.Bootloader.{
  g_attrs, g_strs, c_attrs, c_strs, fs_descriptors, hs_descriptors, os_desc_compat, os_desc_header,
  strings, Bootloader, init, configure, configure_cfs, configure_ffs, on_cfs, on_ffs, with_cfs,
  with_ffs,
}

pub with_cfs-next :
    (b b' : Bootloader) (h' : History) (x : Bool) (r : Exit Bool × ConfigfsHandle × History)
    → with_cfs b r ≡ (next x, b', h')
    → (r ≡ (next x, b'.cfs_h, h')) × (b' ≡ record b { cfs_h = b'.cfs_h })
with_cfs-next b b' h' x (r, t, i) e = ground arith

pub with_ffs-next :
    (b b' : Bootloader) (h' : History) (x : Bool) (r : Exit Bool × Handler × History)
    → with_ffs b r ≡ (next x, b', h')
    → (r ≡ (next x, b'.ffs_h, h')) × (b' ≡ record b { ffs_h = b'.ffs_h })
with_ffs-next b b' h' x (r, t, i) e = ground arith

enable-true :
    (env : Env) (t t' : ConfigfsHandle) (h h' : History)
    → Configfs.enable (plain env) t h ≡ (next true, t', h')
    → (t' ≡ t) × (h' ≡ usbg_enable_gadget t.g t.u ∷ h)
unfolding Configfs.enable
enable-true env t t' h h' e = ground arith

-- The handle with the bootloader's attributes and strings, and the handler with its descriptors and
-- strings, and with 60 seconds for a transfer.
abbrev pub with_names : ConfigfsHandle → ConfigfsHandle
with_names t = record t { g_attrs = g_attrs; g_strs = g_strs; c_attrs = c_attrs; c_strs = c_strs }

abbrev pub with_descriptors : Uapi → Handler → Handler
with_descriptors uapi s = record s {
  fs_descriptors = fs_descriptors uapi;
  hs_descriptors = hs_descriptors uapi;
  os_desc_compat = os_desc_compat uapi;
  os_desc_header = os_desc_header uapi;
  strings = strings uapi;
  aio_timeout_ms = pos 60000;
}

configure_cfs-names : (env : Env) (t : ConfigfsHandle) → configure_cfs env t ≡ with_names t
configure_cfs-names env t = refl

configure_ffs-descriptors :
    (env : Env) (s : Handler) → configure_ffs env s ≡ with_descriptors env.uapi s
unfolding aio_set_timeout
configure_ffs-descriptors env s = refl

-- A successful `init` of the bootloader: `h1` are the calls when configfs was set up, and `h2` when
-- the handler was ready.
pub record Running (env : Env) (b b' : Bootloader) (h h' : History) : Type 0 where
  pub h1 : History
  pub h2 : History
  pub configured : Configured (with_names b.cfs_h) b'.cfs_h h h1
  pub counts : Lifecycle.is_initialized b'.ffs_h ≡ true
  pub ready : Ready env (with_descriptors env.uapi b.ffs_h) b'.ffs_h h1 h2
  pub calls : h' ≡ usbg_enable_gadget b'.cfs_h.g b'.cfs_h.u ∷ h2
  pub frame : b' ≡ record b { cfs_h = b'.cfs_h; ffs_h = b'.ffs_h }

plain-init-Running :
    (env : Env) (b b' : Bootloader) (h h' : History)
    → init (plain env) b h ≡ (next true, b', h')
    → Running (plain env) b b' h h'
unfolding init
plain-init-Running env b b' h h' e =
    let env' = plain env in
    let enabling : M Bootloader (Unit {0}) = on_cfs (Configfs.enable env') >>= advance env' in
    let mounting : M Bootloader (Unit {0}) =
      on_ffs (Lifecycle.init env') >>= λ r. advance env' r >> enabling in
    let configuring : M Bootloader (Unit {0}) =
      on_cfs (Configfs.init env') >>= λ r. advance env' r >> mounting in
    let start = configure env' b in
    let (b1, h1, c_true, e1) =
      required-next env (on_cfs (Configfs.init env')) mounting b' h' start h
        (method-true b' h' (modify (configure env') >> configuring) b h e) in
    let (b2, h2, m_true, e2) =
      required-next env (on_ffs (Lifecycle.init env')) enabling b' h' b1 h1 e1 in
    let e3 = required-last env b' h' (on_cfs (Configfs.enable env')) b2 h2 e2 in
    let (c_run, b1_is) = with_cfs-next start b1 h1 true (Configfs.init env' start.cfs_h h) c_true in
    let (m_run, b2_is) = with_ffs-next b1 b2 h2 true (Lifecycle.init env' b1.ffs_h h1) m_true in
    let (e_run, b'_is) = with_cfs-next b2 b' h' true (Configfs.enable env' b2.cfs_h h2) e3 in
    let configured = configfs_init-true env' start.cfs_h b1.cfs_h h h1 c_run in
    let (counts, ready) = handler_init-Ready env' b1.ffs_h b2.ffs_h h1 h2 m_run in
    let (same, calls) = enable-true env b2.cfs_h b'.cfs_h h2 h' e_run in
    let cfs2 : b2.cfs_h ≡ b1.cfs_h = ap (λ (b : Bootloader). b.cfs_h) b2_is in
    let names : Configured (with_names b.cfs_h) b1.cfs_h h h1 =
      subst (λ t. Configured t b1.cfs_h h h1) (configure_cfs-names env' b.cfs_h) configured in
    let ffs1 : b1.ffs_h ≡ with_descriptors env.uapi b.ffs_h =
      ap (λ (b : Bootloader). b.ffs_h) b1_is ∙ configure_ffs-descriptors env' b.ffs_h in
    let cfs : b1.cfs_h ≡ b'.cfs_h = sym (same ∙ cfs2) in
    let ffs : b2.ffs_h ≡ b'.ffs_h = sym (ap (λ (b : Bootloader). b.ffs_h) b'_is) in
    record {
      h1 = h1;
      h2 = h2;
      configured = subst (λ t. Configured (with_names b.cfs_h) t h h1) cfs names;
      counts = subst (λ s. Lifecycle.is_initialized s ≡ true) ffs counts;
      ready =
          subst (λ s. Ready env' s b'.ffs_h h1 h2) ffs1
            (subst (λ s. Ready env' b1.ffs_h s h1 h2) ffs ready);
      calls = calls ∙ ap (λ (t : ConfigfsHandle). usbg_enable_gadget t.g t.u ∷ h2) (sym same);
      frame = ground (arith, b'_is, b2_is, b1_is);
    }

-- When `init` of the bootloader returns true, whatever the outside answers, then configfs was set up
-- first, with the attributes and strings of the bootloader, then the handler became ready, with the
-- bootloader's descriptors and strings and 60 seconds for a transfer, and the gadget was enabled last, with the UDC that was found. The parser,
-- the composer and the timeout of the wait are as before.
pub bootloader_init-Running :
    (env : Env) (b b' : Bootloader) (h h' : History)
    → init env b h ≡ (next true, b', h')
    → Running env b b' h h'
bootloader_init-Running env = rw (Env-plain env) (plain-init-Running env)
