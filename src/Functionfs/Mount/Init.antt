-- ===== src/Functionfs/Mount/Init.antt =====
-- What `ffs_init` has done when it returns.
use firmware_x.Prelude.{◌≡◌, ◌⊎◌, List, [], ◌∷◌, true, arith}
use firmware_x.Prelude.Int.{is_nonneg}
use firmware_x.System.{
  DescV2, Call, ctrl, ep_in, ep_out, eventfd, exists_path, remove_path, create_directories, mount,
  umount, open_ep, write_descriptor, write_strings, close, Env, plain, Env-plain, History, ◌>>=◌,
  ◌>>◌, gets, next, >>=-next, method-true,
}
use firmware_x.Functionfs.{Handler}
use firmware_x.Functionfs.Mount.{
  v2_descriptor, mount_ffs, write_ctrl, open_pipes, ffs_open, ffs_mark, ffs_init,
}

-- The calls that give something back: every `close`, and every `umount`.
unfoldable pub releases : History → List Call
releases [] = []
releases (close fd ∷ h) = close fd ∷ releases h
releases (umount ∷ h) = umount ∷ releases h
releases (_ ∷ h) = releases h

mount_ffs-next :
    (env : Env) (s s' : Handler) (h h' : History)
    → mount_ffs (plain env) s h ≡ (next tt, s', h')
    → (s' ≡ record s { fd_eventfd = s'.fd_eventfd })
      × (is_nonneg s'.fd_eventfd ≡ true)
      × ((h' ≡ mount ∷ create_directories ∷ exists_path ∷ eventfd ∷ h)
          ⊎ (h' ≡ mount ∷ create_directories ∷ remove_path ∷ exists_path ∷ eventfd ∷ h))
unfolding mount_ffs
mount_ffs-next env s s' h h' e = ground arith

write_ctrl-next :
    (env : Env) (d : DescV2) (s s' : Handler) (h h' : History)
    → write_ctrl (plain env) d s h ≡ (next tt, s', h')
    → (s' ≡ record s { fd_ffs_ep_crtl = s'.fd_ffs_ep_crtl })
      × (is_nonneg s'.fd_ffs_ep_crtl ≡ true)
      × ((env.answer (open_ep ctrl ∷ h)).ret ≡ s'.fd_ffs_ep_crtl)
      × (h'
          ≡ write_strings s'.fd_ffs_ep_crtl s.strings
            ∷ write_descriptor s'.fd_ffs_ep_crtl d
            ∷ open_ep ctrl
            ∷ h)
unfolding write_ctrl
write_ctrl-next env d s s' h h' e = ground arith

open_pipes-next :
    (env : Env) (s s' : Handler) (h h' : History)
    → open_pipes (plain env) s h ≡ (next tt, s', h')
    → (s' ≡ record s { fd_ffs_ep_in = s'.fd_ffs_ep_in; fd_ffs_ep_out = s'.fd_ffs_ep_out })
      × (is_nonneg s'.fd_ffs_ep_in ≡ true)
      × (is_nonneg s'.fd_ffs_ep_out ≡ true)
      × (h' ≡ open_ep ep_out ∷ open_ep ep_in ∷ h)
unfolding open_pipes
open_pipes-next env s s' h h' e = ground arith

-- The members that `ffs_init` may write.
pub record Opened (s s' : Handler) : Type 0 where
  pub frame : s' ≡ record s {
    fd_eventfd = s'.fd_eventfd;
    fd_ffs_ep_crtl = s'.fd_ffs_ep_crtl;
    fd_ffs_ep_in = s'.fd_ffs_ep_in;
    fd_ffs_ep_out = s'.fd_ffs_ep_out;
    ffs_initialized = s'.ffs_initialized;
  }

-- The calls before the control file is opened.
abbrev pub Mounting : History → History → Type 0
Mounting h i =
    (i ≡ mount ∷ create_directories ∷ exists_path ∷ eventfd ∷ h)
    ⊎ (i ≡ mount ∷ create_directories ∷ remove_path ∷ exists_path ∷ eventfd ∷ h)

-- A successful `ffs_init`: the calls, the last on top, with the old directory removed if it was there.
abbrev pub init_calls : Env → Handler → Handler → History → History
init_calls env s s' mounting =
    open_ep ep_out
    ∷ open_ep ep_in
    ∷ write_strings s'.fd_ffs_ep_crtl s.strings
    ∷ write_descriptor s'.fd_ffs_ep_crtl (v2_descriptor env s')
    ∷ open_ep ctrl
    ∷ mounting

pub record Mounted (env : Env) (s s' : Handler) (h h' : History) : Type 0 where
  pub opened : Opened s s'
  pub initialized : s'.ffs_initialized ≡ true
  pub eventfd_open : is_nonneg s'.fd_eventfd ≡ true
  pub ctrl_open : is_nonneg s'.fd_ffs_ep_crtl ≡ true
  pub in_open : is_nonneg s'.fd_ffs_ep_in ≡ true
  pub out_open : is_nonneg s'.fd_ffs_ep_out ≡ true
  pub mounting : History
  pub mounted : Mounting h mounting
  pub ctrl_answer : (env.answer (open_ep ctrl ∷ mounting)).ret ≡ s'.fd_ffs_ep_crtl
  pub calls : h' ≡ init_calls env s s' mounting

plain_init-true :
    (env : Env) (s s' : Handler) (h h' : History)
    → ffs_init (plain env) s h ≡ (next true, s', h')
    → Mounted (plain env) s s' h h'
unfolding ffs_init ffs_open ffs_mark v2_descriptor
plain_init-true env s s' h h' e =
    let env' = plain env in
    let write = λ (d : DescV2). write_ctrl env' d >> open_pipes env' in
    let (_, t4, h4, e4, f4) =
      >>=-next (λ (u : Unit {0}). ffs_mark env') s' h' tt (ffs_open env') s h
        (method-true s' h' (ffs_open env' >> ffs_mark env') s h e) in
    let (_, t1, h1, e1, f1) =
      >>=-next (λ (u : Unit {0}). gets (v2_descriptor env') >>= write) t4 h4 tt (mount_ffs env') s h
        e4 in
    let (_, t3, h3, e3, f3) =
      >>=-next (λ (u : Unit {0}). open_pipes env') t4 h4 tt
        (write_ctrl env' (v2_descriptor env' t1)) t1 h1 f1 in
    let mounted = mount_ffs-next env s t1 h h1 e1 in
    let written = write_ctrl-next env (v2_descriptor env' t1) t1 t3 h1 h3 e3 in
    let piped = open_pipes-next env t3 t4 h3 h4 f3 in
    record {
      opened = ground (arith, mounted, written, piped, f4);
      initialized = ground (arith, f4);
      eventfd_open = ground (arith, mounted, written, piped, f4);
      ctrl_open = ground (arith, written, piped, f4);
      in_open = ground (arith, piped, f4);
      out_open = ground (arith, piped, f4);
      mounting = h1;
      mounted = mounted.2;
      ctrl_answer = ground (arith, written, piped, f4);
      calls = ground (arith, mounted, written, piped, f4);
    }

-- When `ffs_init` returns true, from any state and whatever the outside answers: none of the four
-- descriptors is negative, and that of the control file is what its opening gave; the handler is marked
-- as initialised, no other member has changed, and the calls are just these, in this order, with the
-- old directory removed or not.
pub ffs_init-true :
    (env : Env) (s s' : Handler) (h h' : History)
    → ffs_init env s h ≡ (next true, s', h')
    → Mounted env s s' h h'
ffs_init-true env = rw (Env-plain env) (plain_init-true env)
