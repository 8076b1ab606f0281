-- ===== src/Bootloader/Failure.antt =====
-- What `init` of the bootloader gives back, however it ends.
use firmware_x.Prelude.{◌≡◌, refl, Bool, true, false, arith, if◌then◌else◌}
use firmware_x.System.{
  Env, plain, Env-plain, History, M, ◌>>=◌, ◌>>◌, modify, gets, pure, advance, Keeps, DescV2,
}
use firmware_x.System.Undone.{undone, Leaves, then-Leaves, method-Leaves}
use firmware_x.Functionfs.Mount.{
  v2_descriptor, mount_ffs, write_ctrl, open_pipes, ffs_open, ffs_mark, ffs_init,
}
use firmware_x.Functionfs.Aio.{aio_init}
use firmware_x.Functionfs.Lifecycle
use firmware_x.Functionfs.Lifecycle.{and_then}
use firmware_x.Configfs
use firmware_x.Configfs.{ConfigfsHandle, create_gadget, create_parts, find_udc}
use firmware_x.Bootloader.{Bootloader, init, on_cfs, on_ffs, configure}

module _ (env : Env) where
  create_gadget-Leaves : Keeps Leaves (create_gadget (plain env))
  unfolding create_gadget undone
  create_gadget-Leaves t h = ground arith

  create_parts-Leaves : Keeps Leaves (create_parts (plain env))
  unfolding create_parts undone
  create_parts-Leaves t h = ground arith

  find_udc-Leaves : Keeps Leaves (find_udc (plain env))
  unfolding find_udc undone
  find_udc-Leaves t h = ground arith

  configfs_init-Leaves : Keeps Leaves (Configfs.init (plain env))
  unfolding Configfs.init
  configfs_init-Leaves =
      let e = plain env in
      let rest = λ (u : Unit {0}). create_parts e >> find_udc e in
      let rest_kept : (u : Unit {0}) → Keeps Leaves (rest u) = λ u.
        then-Leaves (create_parts e) (λ (v : Unit {0}). find_udc e) create_parts-Leaves
          (λ v. find_udc-Leaves) in
      method-Leaves (create_gadget e >>= rest)
        (then-Leaves (create_gadget e) rest create_gadget-Leaves rest_kept)

  enable-Leaves : Keeps Leaves (Configfs.enable (plain env))
  unfolding Configfs.enable undone
  enable-Leaves t h = ground arith

  mount_ffs-Leaves : Keeps Leaves (mount_ffs (plain env))
  unfolding mount_ffs undone
  mount_ffs-Leaves s h = ground arith

  write_ctrl-Leaves : (d : DescV2) → Keeps Leaves (write_ctrl (plain env) d)
  unfolding write_ctrl undone
  write_ctrl-Leaves d s h = ground arith

  open_pipes-Leaves : Keeps Leaves (open_pipes (plain env))
  unfolding open_pipes undone
  open_pipes-Leaves s h = ground arith

  ffs_open-Leaves : Keeps Leaves (ffs_open (plain env))
  unfolding ffs_open
  ffs_open-Leaves =
      let e = plain env in
      let write = λ (d : DescV2). write_ctrl e d >> open_pipes e in
      let writes : (d : DescV2) → Keeps Leaves (write d) = λ d.
        then-Leaves (write_ctrl e d) (λ (u : Unit {0}). open_pipes e) (write_ctrl-Leaves d)
          (λ u. open_pipes-Leaves) in
      let fills : Keeps Leaves (gets (v2_descriptor e) >>= write) =
        then-Leaves (gets (v2_descriptor e)) write (λ s h. refl) writes in
      then-Leaves (mount_ffs e) (λ (u : Unit {0}). gets (v2_descriptor e) >>= write)
        mount_ffs-Leaves (λ u. fills)

  ffs_init-Leaves : Keeps Leaves (ffs_init (plain env))
  unfolding ffs_init ffs_mark
  ffs_init-Leaves =
      let e = plain env in
      method-Leaves (ffs_open e >> ffs_mark e)
        (then-Leaves (ffs_open e) (λ (u : Unit {0}). ffs_mark e) ffs_open-Leaves (λ u s h. refl))

  aio_init-Leaves : Keeps Leaves (aio_init (plain env))
  unfolding aio_init undone
  aio_init-Leaves s h = ground arith

  aio_init_if-Leaves : (b : Bool) → Keeps Leaves (if b then aio_init (plain env) else pure false)
  aio_init_if-Leaves true = aio_init-Leaves
  aio_init_if-Leaves false = λ s h. refl

  handler_init-Leaves : Keeps Leaves (Lifecycle.init (plain env))
  unfolding Lifecycle.init
  handler_init-Leaves =
      then-Leaves (ffs_init (plain env))
        (λ (b : Bool). if b then aio_init (plain env) else pure false) ffs_init-Leaves
        aio_init_if-Leaves

  advance-Leaves : (b : Bool) → Keeps {S = Bootloader} Leaves (advance (plain env) b)
  advance-Leaves b s h = ground arith

  -- A part that has to return true, and what follows.
  required-Leaves :
      (part : M Bootloader Bool) (rest : M Bootloader (Unit {0}))
      → Keeps Leaves part
      → Keeps Leaves rest
      → Keeps Leaves (part >>= λ b. advance (plain env) b >> rest)
  required-Leaves part rest p r =
      let then_rest : (b : Bool) → Keeps Leaves (advance (plain env) b >> rest) = λ b.
        then-Leaves (advance (plain env) b) (λ (u : Unit {0}). rest) (advance-Leaves b) (λ u. r) in
      then-Leaves part (λ (b : Bool). advance (plain env) b >> rest) p then_rest

  plain-init-Leaves : Keeps Leaves (init (plain env))
  unfolding init
  plain-init-Leaves =
      let e = plain env in
      let enabling : M Bootloader (Unit {0}) = on_cfs (Configfs.enable e) >>= advance e in
      let mounting : M Bootloader (Unit {0}) =
        on_ffs (Lifecycle.init e) >>= λ b. advance e b >> enabling in
      let configuring : M Bootloader (Unit {0}) =
        on_cfs (Configfs.init e) >>= λ b. advance e b >> mounting in
      let enables : Keeps Leaves enabling =
        then-Leaves (on_cfs (Configfs.enable e)) (advance e) (λ b h. enable-Leaves b.cfs_h h)
          advance-Leaves in
      let mounts : Keeps Leaves mounting =
        required-Leaves (on_ffs (Lifecycle.init e)) enabling (λ b h. handler_init-Leaves b.ffs_h h)
          enables in
      let configures : Keeps Leaves configuring =
        required-Leaves (on_cfs (Configfs.init e)) mounting (λ b h. configfs_init-Leaves b.cfs_h h)
          mounts in
      method-Leaves (modify (configure e) >> configuring) (λ b h. configures (configure e b) h)

-- However `init` of the bootloader ends, also when it returns false behind a part that has succeeded,
-- it takes nothing down again: it closes no descriptor, unmounts nothing, destroys no context, and
-- neither disables nor removes the gadget.
pub bootloader_init_undoes_nothing :
    (env : Env) (b : Bootloader) (h : History) → undone (init env b h).2 ≡ undone h
bootloader_init_undoes_nothing env = rw (Env-plain env) (plain-init-Leaves env)
