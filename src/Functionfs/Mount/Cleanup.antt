-- ===== src/Functionfs/Mount/Cleanup.antt =====
-- What `ffs_cleanup` has done when it returns, and what a whole round of mounting leaves open.
use firmware_x.Prelude.{◌≡◌, ◌≢◌, ap, ◌∙◌, ◌∷◌, true, false, arith, if◌then◌else◌}
use firmware_x.Prelude.Int.{ℤ, minus_one, is_nonneg, is_pos}
use firmware_x.System.{close, umount, Env, plain, Env-plain, History, next}
use firmware_x.Functionfs.{Handler}
use firmware_x.Functionfs.Mount.{ffs_init, ffs_cleanup, close_pipe, close_ctrl}
use firmware_x.Functionfs.Mount.Init.{releases, Mounted, ffs_init-true}

abbrev pub closing : ℤ → History → History
closing fd h = if is_pos fd then close fd ∷ h else h

abbrev pub forgotten : ℤ → ℤ
forgotten fd = if is_pos fd then minus_one else fd

plain_cleanup-true :
    (env : Env) (s s' : Handler) (h h' : History)
    → ffs_cleanup (plain env) s h ≡ (next true, s', h')
    → (s' ≡ record s {
      fd_ffs_ep_in = forgotten s.fd_ffs_ep_in;
      fd_ffs_ep_out = forgotten s.fd_ffs_ep_out;
      fd_ffs_ep_crtl = forgotten s.fd_ffs_ep_crtl;
      ffs_initialized = false;
    })
      × (h'
          ≡ umount ∷ closing s.fd_ffs_ep_crtl (closing s.fd_ffs_ep_out (closing s.fd_ffs_ep_in h)))
unfolding ffs_cleanup close_pipe close_ctrl
plain_cleanup-true env s s' h h' e = ground arith

plain_cleanup-failed :
    (env : Env) (s : Handler) (h : History)
    → (ffs_cleanup (plain env) s h).0 ≢ next true
    → (ffs_cleanup (plain env) s h).1.ffs_initialized ≡ s.ffs_initialized
unfolding ffs_cleanup close_pipe close_ctrl
plain_cleanup-failed env s h e = ground arith

-- When `ffs_cleanup` returns true, each of the two pipes and the control file has been closed if its
-- descriptor is positive, in this order, and is then -1; the file system is unmounted last, and the
-- handler is no longer marked as initialised. Nothing else has changed.
pub ffs_cleanup-true :
    (env : Env) (s s' : Handler) (h h' : History)
    → ffs_cleanup env s h ≡ (next true, s', h')
    → (s' ≡ record s {
      fd_ffs_ep_in = forgotten s.fd_ffs_ep_in;
      fd_ffs_ep_out = forgotten s.fd_ffs_ep_out;
      fd_ffs_ep_crtl = forgotten s.fd_ffs_ep_crtl;
      ffs_initialized = false;
    })
      × (h'
          ≡ umount ∷ closing s.fd_ffs_ep_crtl (closing s.fd_ffs_ep_out (closing s.fd_ffs_ep_in h)))
ffs_cleanup-true env = rw (Env-plain env) (plain_cleanup-true env)

-- However `ffs_cleanup` ends, if it does not return true, the mark stays as it was.
pub ffs_cleanup-failed :
    (env : Env) (s : Handler) (h : History)
    → (ffs_cleanup env s h).0 ≢ next true
    → (ffs_cleanup env s h).1.ffs_initialized ≡ s.ffs_initialized
ffs_cleanup-failed env = rw (Env-plain env) (plain_cleanup-failed env)

releases-Mounted :
    (env : Env) (s s' : Handler) (h h' : History) → Mounted env s s' h h' → releases h' ≡ releases h
unfolding releases
releases-Mounted env s s' h h' m = ground (arith, m.calls)

releases-closing :
    (c o i : ℤ) (h : History)
    → is_pos c ≡ true
    → is_pos o ≡ true
    → is_pos i ≡ true
    → releases (umount ∷ closing c (closing o (closing i h)))
      ≡ umount ∷ close c ∷ close o ∷ close i ∷ releases h
unfolding releases
releases-closing c o i h pc po pi = rw (pc, po, pi)

-- A whole round, `ffs_init` and later `ffs_cleanup`, both returning true, with positive descriptors:
-- the round gives back the two pipes, the control file and the mount, and nothing else. The eventfd
-- that `ffs_init` opened is still in the handler, an open descriptor that no call has closed, unless
-- its number is that of one of the three.
pub mount_round :
    (env : Env) (s s1 s2 : Handler) (h h1 h2 : History)
    → ffs_init env s h ≡ (next true, s1, h1)
    → ffs_cleanup env s1 h1 ≡ (next true, s2, h2)
    → is_pos s1.fd_ffs_ep_crtl ≡ true
    → is_pos s1.fd_ffs_ep_out ≡ true
    → is_pos s1.fd_ffs_ep_in ≡ true
    → (releases h2
        ≡ umount
          ∷ close s1.fd_ffs_ep_crtl
          ∷ close s1.fd_ffs_ep_out
          ∷ close s1.fd_ffs_ep_in
          ∷ releases h)
      × (s2.fd_eventfd ≡ s1.fd_eventfd)
      × (is_nonneg s2.fd_eventfd ≡ true)
      × (s2.ffs_initialized ≡ false)
mount_round env s s1 s2 h h1 h2 up down pc po pi =
    let m = ffs_init-true env s s1 h h1 up in
    let (s2_is, h2_is) = ffs_cleanup-true env s1 s2 h1 h2 down in
    let kept : s2.fd_eventfd ≡ s1.fd_eventfd = ap (λ (t : Handler). t.fd_eventfd) s2_is in
    (
      rw h2_is (
          releases-closing s1.fd_ffs_ep_crtl s1.fd_ffs_ep_out s1.fd_ffs_ep_in h1 pc po pi
          ∙ rw (releases-Mounted env s s1 h h1 m)),
      kept,
      rw kept m.eventfd_open,
      ap (λ (t : Handler). t.ffs_initialized) s2_is,
    )
