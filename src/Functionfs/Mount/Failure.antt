-- ===== src/Functionfs/Mount/Failure.antt =====
-- What `ffs_init` leaves behind when it fails.
use firmware_x.Prelude.{◌≡◌, ◌≢◌, refl, true, arith}
use firmware_x.System.{
  DescV2, Env, plain, Env-plain, History, ◌>>=◌, ◌>>◌, gets, Exit, next, return_false, thrown,
  undefined, then_run, to_result, Keeps, Preorder, >>=-Keeps,
}
use firmware_x.Functionfs.{Handler}
use firmware_x.Functionfs.Mount.{
  v2_descriptor, mount_ffs, write_ctrl, open_pipes, ffs_open, ffs_mark, ffs_init,
}
use firmware_x.Functionfs.Mount.Init.{Opened, releases}

-- The descriptors may have changed, and nothing has been given back.
pub record Abandons (s : Handler) (h : History) (s' : Handler) (h' : History) : Type 0 where
  pub opened : Opened s s'
  pub unmarked : s'.ffs_initialized ≡ s.ffs_initialized
  pub kept : releases h' ≡ releases h

Abandons-Preorder : Preorder Abandons
Abandons-Preorder = record {
  reflexive = λ s h. ground arith;
  transitive = λ s t u h i j p q. ground arith;
}

module _ (env : Env) where
  mount_ffs-Keeps : Keeps Abandons (mount_ffs (plain env))
  unfolding mount_ffs releases
  mount_ffs-Keeps s h = ground arith

  write_ctrl-Keeps : (d : DescV2) → Keeps Abandons (write_ctrl (plain env) d)
  unfolding write_ctrl releases
  write_ctrl-Keeps d s h = ground arith

  open_pipes-Keeps : Keeps Abandons (open_pipes (plain env))
  unfolding open_pipes releases
  open_pipes-Keeps s h = ground arith

  ffs_open-Keeps : Keeps Abandons (ffs_open (plain env))
  unfolding ffs_open
  ffs_open-Keeps =
      let env' = plain env in
      let write = λ (d : DescV2). write_ctrl env' d >> open_pipes env' in
      let writes : (d : DescV2) → Keeps Abandons (write d) = λ d.
        >>=-Keeps Abandons Abandons-Preorder (λ (u : Unit {0}). open_pipes env')
          (λ u. open_pipes-Keeps) (write_ctrl env' d) (write_ctrl-Keeps d) in
      let fills : Keeps Abandons (gets (v2_descriptor env') >>= write) =
        >>=-Keeps Abandons Abandons-Preorder write writes (gets (v2_descriptor env'))
          Abandons-Preorder.reflexive in
      >>=-Keeps Abandons Abandons-Preorder (λ (u : Unit {0}). gets (v2_descriptor env') >>= write)
        (λ u. fills) (mount_ffs env') mount_ffs-Keeps

-- Only a successful opening is followed by the mark.
marked-Abandons :
    (env : Env) (s : Handler) (h : History) (r : Exit (Unit {0}) × Handler × History)
    → Abandons s h r.1 r.2
    → let q = to_result (then_run r (λ (u : Unit {0}). ffs_mark env)) in
      q.0 ≢ next true → Abandons s h q.1 q.2
unfolding ffs_mark
marked-Abandons env s h (next u, t, i) a failed = absurd (failed refl)
marked-Abandons env s h (return_false, t, i) a failed = a
marked-Abandons env s h (thrown, t, i) a failed = a
marked-Abandons env s h (undefined, t, i) a failed = a

plain_init-failed :
    (env : Env) (s : Handler) (h : History)
    → (ffs_init (plain env) s h).0 ≢ next true
    → Abandons s h (ffs_init (plain env) s h).1 (ffs_init (plain env) s h).2
unfolding ffs_init
plain_init-failed env s h =
    marked-Abandons (plain env) s h (ffs_open (plain env) s h) (ffs_open-Keeps env s h)

-- However `ffs_init` ends, if it does not return true, then the handler is not newly marked as
-- initialised, no member but the descriptors has changed, and nothing is given back: no descriptor
-- is closed, not even one that was opened before the failure, and the mount, if made, stays.
pub ffs_init-failed :
    (env : Env) (s : Handler) (h : History)
    → (ffs_init env s h).0 ≢ next true
    → Abandons s h (ffs_init env s h).1 (ffs_init env s h).2
ffs_init-failed env = rw (Env-plain env) (plain_init-failed env)
