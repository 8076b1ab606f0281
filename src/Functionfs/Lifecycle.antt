-- ===== src/Functionfs/Lifecycle.antt =====
-- onekey_usb_functionfs.hpp: init, cleanup and is_initialized of class handler, which join the two parts.
pub mod Ready
pub mod Partial
mod Examples
use firmware_x.Prelude.{Bool, false, ◌&&◌, if◌then◌else◌}
use firmware_x.System.{Env, M, pure, ◌>>=◌}
use firmware_x.Functionfs.{Handler}
use firmware_x.Functionfs.Mount.{ffs_init, ffs_cleanup}
use firmware_x.Functionfs.Aio.{aio_init, aio_cleanup}

-- `a() && b()`
abbrev pub and_then : M Handler Bool → M Handler Bool → M Handler Bool
and_then a b = do first ← a; if first then b else pure false

module _ (env : Env) where
  unfoldable pub init : M Handler Bool
  init = and_then (ffs_init env) (aio_init env)

  unfoldable pub cleanup : M Handler Bool
  cleanup = and_then (ffs_cleanup env) (aio_cleanup env)

abbrev pub is_initialized : Handler → Bool
is_initialized s = s.ffs_initialized && s.aio_initialized
