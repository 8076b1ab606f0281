-- ===== src/Bootloader/Written.antt =====
-- What a successful `init` of the bootloader of onekey_usb_bootloader_mode.hpp has told the kernel.
use firmware_x.Prelude.{◌≡◌, ◌∙◌, ltb→lt, refl, ap, [], ◌∷◌, true, some, arith}
use firmware_x.Prelude.Int.{ℤ}
use firmware_x.System.{
  Env, History, next, DescV2, FfsStrings, ctrl, ep_in, ep_out, open_ep, io_setup, write_descriptor,
  write_strings, usbg_enable_gadget, Uapi, OsDescHeader,
}
use firmware_x.Functionfs.{Handler}
use firmware_x.Functionfs.Mount.Init.{Opened, init_calls}
use firmware_x.Functionfs.Mount.{v2_descriptor}
use firmware_x.Descriptors.{Layout, to_u32, os_bytes, desc_v2_bytes, ffs_strings_bytes}
use firmware_x.Descriptors.Documented.{Documented, IsSized, IsHandlerSized}
use firmware_x.Descriptors.Format.{Descriptors, read_descriptors, read_strings}
use firmware_x.Descriptors.RoundTrip.{written_descriptors}
use firmware_x.Descriptors.Written.{func_descs}
use firmware_x.Descriptors.Strings.{no_zero-All, IsOneString, written_strings}
use firmware_x.Bootloader.{
  Bootloader, init, onekey_usb, fs_descriptors, hs_descriptors, os_desc_compat, os_desc_header,
  strings,
}
use firmware_x.Bootloader.Setup.{with_descriptors, bootloader_init-Running}

-- The bootloader's members of the handler, from before `ffs_init` to its end.
record HasDescriptors (uapi : Uapi) (s : Handler) : Type 0 where
  fs : s.fs_descriptors ≡ fs_descriptors uapi
  hs : s.hs_descriptors ≡ hs_descriptors uapi
  compat : s.os_desc_compat ≡ os_desc_compat uapi
  header : s.os_desc_header ≡ os_desc_header uapi
  strs : s.strings ≡ strings uapi

with_descriptors-HasDescriptors :
    (uapi : Uapi) (s : Handler) → HasDescriptors uapi (with_descriptors uapi s)
with_descriptors-HasDescriptors uapi s = record {
  fs = refl;
  hs = refl;
  compat = refl;
  header = refl;
  strs = refl;
}

Opened-HasDescriptors :
    (uapi : Uapi) (s m : Handler) → Opened s m → HasDescriptors uapi s → HasDescriptors uapi m
Opened-HasDescriptors uapi s m o d = record {
  fs = ap (λ (x : Handler). x.fs_descriptors) o.frame ∙ d.fs;
  hs = ap (λ (x : Handler). x.hs_descriptors) o.frame ∙ d.hs;
  compat = ap (λ (x : Handler). x.os_desc_compat) o.frame ∙ d.compat;
  header = ap (λ (x : Handler). x.os_desc_header) o.frame ∙ d.header;
  strs = ap (λ (x : Handler). x.strings) o.frame ∙ d.strs;
}

HasDescriptors-IsHandlerSized :
    (uapi : Uapi) (s : Handler) → HasDescriptors uapi s → IsHandlerSized uapi s
HasDescriptors-IsHandlerSized uapi s d =
    let sized : IsSized uapi (fs_descriptors uapi) = record {
      intf = refl;
      source = refl;
      sink = refl;
    } in
    record {
      fs = rw d.fs sized;
      hs = rw d.hs sized;
      os = ap (λ (x : OsDescHeader). x.dw_length) d.header;
    }

strings-IsOneString : (uapi : Uapi) → Documented uapi → IsOneString uapi (strings uapi) onekey_usb
strings-IsOneString uapi documented = record {
  magic = refl;
  length = documented.strings_size;
  str_count = refl;
  lang_count = refl;
  code_fits = ltb→lt _ _ refl;
  magic_fits = omega (arith, documented.strings_magic);
  length_fits = omega (arith, documented.strings_size);
  str1 = refl;
  no_zero = no_zero-All onekey_usb refl;
}

-- The descriptors of the bootloader, with the eventfd of the handler.
abbrev pub told : (uapi : Uapi) (layout : Layout uapi) → Documented uapi → ℤ → Descriptors
told uapi layout documented fd = record {
  eventfd = to_u32 fd;
  full_speed = func_descs layout documented (fs_descriptors uapi);
  high_speed = func_descs layout documented (hs_descriptors uapi);
  super_speed = [];
  os = os_bytes layout (os_desc_header uapi) (os_desc_compat uapi) ∷ [];
}

module _ (env : Env) (layout : Layout env.uapi) (documented : Documented env.uapi) where
  told_lem :
      (m : Handler)
      → HasDescriptors env.uapi m
      → read_descriptors env.uapi (desc_v2_bytes layout (v2_descriptor env m))
        ≡ some (told env.uapi layout documented m.fd_eventfd)
  told_lem m d =
      (written_descriptors env layout documented m (HasDescriptors-IsHandlerSized env.uapi m d)).0
      ∙ rw (d.fs, d.hs, d.compat, d.header) refl

  -- What was called, and what the kernel reads from the two writes.
  pub record Told (b' : Bootloader) (h' : History) : Type 0 where
    pub written : DescV2
    pub written_strs : FfsStrings
    pub before : History
    pub calls :
        h'
        ≡ usbg_enable_gadget b'.cfs_h.g b'.cfs_h.u
          ∷ io_setup
          ∷ open_ep ep_out
          ∷ open_ep ep_in
          ∷ write_strings b'.ffs_h.fd_ffs_ep_crtl written_strs
          ∷ write_descriptor b'.ffs_h.fd_ffs_ep_crtl written
          ∷ open_ep ctrl
          ∷ before
    pub ctrl_fd : (env.answer (open_ep ctrl ∷ before)).ret ≡ b'.ffs_h.fd_ffs_ep_crtl
    pub descs :
        read_descriptors env.uapi (desc_v2_bytes layout written)
        ≡ some (told env.uapi layout documented b'.ffs_h.fd_eventfd)
    pub strs :
        read_strings env.uapi (ffs_strings_bytes written_strs)
        ≡ some ((0x0409, onekey_usb ∷ []) ∷ [])

  written-Told :
      (b' : Bootloader) (s m : Handler) (h2 h' mounting : History)
      → HasDescriptors env.uapi s
      → HasDescriptors env.uapi m
      → b'.ffs_h.fd_eventfd ≡ m.fd_eventfd
      → b'.ffs_h.fd_ffs_ep_crtl ≡ m.fd_ffs_ep_crtl
      → (env.answer (open_ep ctrl ∷ mounting)).ret ≡ m.fd_ffs_ep_crtl
      → h' ≡ usbg_enable_gadget b'.cfs_h.g b'.cfs_h.u ∷ h2
      → h2 ≡ io_setup ∷ init_calls env s m mounting
      → Told b' h'
  written-Told b' s m h2 h' mounting ds dm event control opened e e2 = record {
    written = v2_descriptor env m;
    written_strs = s.strings;
    before = mounting;
    calls = rw (control, e, e2) refl;
    ctrl_fd = rw control opened;
    descs = rw event (told_lem m dm);
    strs = rw ds.strs (
        written_strings env.uapi (strings env.uapi) onekey_usb
          (strings-IsOneString env.uapi documented));
  }

  -- When init of the bootloader returns true, from any state and whatever the outside answers, then the
  -- control file was opened, and twice written to by the descriptor that this gave, which the handler
  -- keeps, before the endpoint files were opened. The kernel's
  -- documented format gives back from the bytes of the first write, with nothing left over: the
  -- handler's eventfd, as 32 bits, the bootloader's three descriptors for full speed and its three for
  -- high speed, none for super speed, and its one for operating systems; and from those of the second,
  -- "OneKeyUSB" as the one string, in English. The headers' constants and sizes must be as documented.
  pub init_tells :
      (b b' : Bootloader) (h h' : History) → init env b h ≡ (next true, b', h') → Told b' h'
  init_tells b b' h h' e =
      let run = bootloader_init-Running env b b' h h' e in
      let m = run.ready.m in
      let mounted = run.ready.mounted in
      let ds = with_descriptors-HasDescriptors env.uapi b.ffs_h in
      let dm =
        Opened-HasDescriptors env.uapi (with_descriptors env.uapi b.ffs_h) m mounted.opened ds in
      let event : b'.ffs_h.fd_eventfd ≡ m.fd_eventfd =
        ap (λ (x : Handler). x.fd_eventfd) run.ready.handler in
      let control : b'.ffs_h.fd_ffs_ep_crtl ≡ m.fd_ffs_ep_crtl =
        ap (λ (x : Handler). x.fd_ffs_ep_crtl) run.ready.handler in
      written-Told b' (with_descriptors env.uapi b.ffs_h) m run.h2 h' mounted.mounting ds dm event
        control mounted.ctrl_answer run.calls
        (run.ready.calls ∙ ap (λ i. io_setup ∷ i) mounted.calls)
