-- ===== src/Functionfs/Mount.antt =====
-- onekey_usb_functionfs.hpp: ffs_init and ffs_cleanup. On the target SOC_SUPPORT_FFS_IOCTL_CALLES is 0,
-- so that ffs_fifo_flush and ffs_close_pipe only return true.
pub mod Init
pub mod Failure
pub mod Cleanup
pub mod Returns
use Prim.Native.Nat.{bit_or}
use firmware_x.Prelude.{ℕ, Bool, true, false, if◌then◌else◌}
use firmware_x.Prelude.Int.{ℤ, minus_one, is_nonneg, is_pos, is_nat}
use firmware_x.System.{
  DescV1, DescV2, ctrl, ep_in, ep_out, eventfd, exists_path, remove_path, create_directories, mount,
  umount, open_ep, write_descriptor, write_strings, close, Env, M, pure, gets, ◌>>=◌, ◌>>◌, modify,
  call, call_fs, advance, method,
}
use firmware_x.Functionfs.{Handler}

module _ (env : Env) where
  remove_old : Bool → M Handler (Unit {0})
  remove_old false = pure tt
  remove_old true = do removed ← call_fs env remove_path; advance env removed

  -- "fill desc", the version that is filled in and not written.
  unfoldable pub v1_descriptor : Handler → DescV1
  v1_descriptor s = record {
    magic = env.uapi.descriptors_magic;
    length = env.uapi.sizeof_desc_v1;
    fs_count = 3;
    hs_count = 3;
    fs_descs = s.fs_descriptors;
    hs_descs = s.hs_descriptors;
  }

  -- "fill desc", the version that is written.
  unfoldable pub v2_descriptor : Handler → DescV2
  v2_descriptor s = record {
    magic = env.uapi.descriptors_magic_v2;
    length = env.uapi.sizeof_desc_v2;
    flags =
        bit_or
          (bit_or (bit_or (bit_or env.uapi.has_fs_desc env.uapi.has_hs_desc) env.uapi.has_ss_desc)
            env.uapi.has_ms_os_desc)
          env.uapi.eventfd_flag;
    fd_eventfd = s.fd_eventfd;
    fs_count = 3;
    hs_count = 3;
    ss_count = 0;
    os_count = 1;
    fs_descs = s.fs_descriptors;
    hs_descs = s.hs_descriptors;
    os_header = s.os_desc_header;
    os_desc = s.os_desc_compat;
  }

  -- "open eventfd" and "mount ffs"
  unfoldable pub mount_ffs : M Handler (Unit {0})
  unfolding remove_old
  mount_ffs = do
    event ← call env eventfd
    modify (λ s. record s { fd_eventfd = event.ret })
    advance env (is_nonneg event.ret)
    old ← call_fs env exists_path
    remove_old old
    created ← call_fs env create_directories
    advance env created
    mounted ← call env mount
    advance env (is_nat 0 mounted.ret)

  -- "open control", and the two writes; a failure of the first is only logged.
  unfoldable pub write_ctrl : DescV2 → M Handler (Unit {0})
  write_ctrl descriptor = do
    opened ← call env (open_ep ctrl)
    modify (λ s. record s { fd_ffs_ep_crtl = opened.ret })
    advance env (is_nonneg opened.ret)
    fd ← gets (λ s. s.fd_ffs_ep_crtl)
    logged ← call env (write_descriptor fd descriptor)
    strings ← gets (λ s. s.strings)
    written ← call env (write_strings fd strings)
    advance env (is_pos written.ret)

  -- "open in" and "open out"
  unfoldable pub open_pipes : M Handler (Unit {0})
  open_pipes = do
    opened_in ← call env (open_ep ep_in)
    modify (λ s. record s { fd_ffs_ep_in = opened_in.ret })
    advance env (is_nonneg opened_in.ret)
    opened_out ← call env (open_ep ep_out)
    modify (λ s. record s { fd_ffs_ep_out = opened_out.ret })
    advance env (is_nonneg opened_out.ret)

  unfoldable pub ffs_open : M Handler (Unit {0})
  ffs_open = do mount_ffs; descriptor ← gets v2_descriptor; write_ctrl descriptor; open_pipes

  unfoldable pub ffs_mark : M Handler (Unit {0})
  ffs_mark = modify (λ s. record s { ffs_initialized = true })

  unfoldable pub ffs_init : M Handler Bool
  ffs_init = method (do ffs_open; ffs_mark)

  ffs_fifo_flush : ℤ → M Handler Bool
  ffs_fifo_flush ffs_ep = pure true

  ffs_close_pipe : ℤ → M Handler Bool
  ffs_close_pipe ffs_ep = pure true

  -- `if ( fd > 0 ) { … close(fd) …; fd = -1; }` for a pipe, and for the control file.
  unfoldable pub close_pipe : ℤ → (Handler → Handler) → M Handler (Unit {0})
  unfolding ffs_fifo_flush ffs_close_pipe
  close_pipe fd forget =
      let closing = do
        flushed ← ffs_fifo_flush fd
        advance env flushed
        halted ← ffs_close_pipe fd
        advance env halted
        closed ← call env (close fd)
        advance env (is_nat 0 closed.ret)
        modify forget
      in if is_pos fd then closing else pure tt

  unfoldable pub close_ctrl : ℤ → (Handler → Handler) → M Handler (Unit {0})
  close_ctrl fd forget =
      let closing = do
        closed ← call env (close fd)
        advance env (is_nat 0 closed.ret)
        modify forget
      in if is_pos fd then closing else pure tt

  unfoldable pub ffs_cleanup : M Handler Bool
  ffs_cleanup = method (do
    fd_in ← gets (λ s. s.fd_ffs_ep_in)
    close_pipe fd_in (λ s. record s { fd_ffs_ep_in = minus_one })
    fd_out ← gets (λ s. s.fd_ffs_ep_out)
    close_pipe fd_out (λ s. record s { fd_ffs_ep_out = minus_one })
    fd_ctrl ← gets (λ s. s.fd_ffs_ep_crtl)
    close_ctrl fd_ctrl (λ s. record s { fd_ffs_ep_crtl = minus_one })
    unmounted ← call env umount
    advance env (is_nat 0 unmounted.ret)
    modify (λ s. record s { ffs_initialized = false }))
