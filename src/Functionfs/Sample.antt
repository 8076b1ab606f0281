-- ===== src/Functionfs/Sample.antt =====
-- Handlers for the tests: a new one, and one as it is with the descriptors 3 to 6.
use firmware_x.Prelude.{[], true, false, none, some}
use firmware_x.Prelude.Int.{pos, minus_one}
use firmware_x.System.Sample.{
  sample_env, sample_desc, sample_compat, sample_os_header, sample_strings,
}
use firmware_x.Functionfs.{Handler, empty}

abbrev pub fresh : Handler
fresh = record {
  error_msg = empty;
  ffs_initialized = false;
  ffs_binded = false;
  ffs_enabled = false;
  fs_descriptors = sample_desc;
  hs_descriptors = sample_desc;
  os_desc_compat = sample_compat;
  os_desc_header = sample_os_header;
  strings = sample_strings;
  fd_ffs_ep_crtl = minus_one;
  fd_ffs_ep_in = minus_one;
  fd_ffs_ep_out = minus_one;
  fd_eventfd = minus_one;
  rfds = [];
  aio_timeout_ms = minus_one;
  aio_initialized = false;
  ctx = none;
  iocb_in = none;
  iocb_out = none;
}

abbrev pub up : Handler
up = record fresh {
  ffs_initialized = true;
  fd_ffs_ep_crtl = pos 4;
  fd_ffs_ep_in = pos 5;
  fd_ffs_ep_out = pos 6;
  fd_eventfd = pos 3;
}

abbrev pub down : Handler
down = record fresh { fd_eventfd = pos 3 }

abbrev pub running : Handler
running = record up {
  aio_timeout_ms = pos 60000;
  aio_initialized = true;
  ctx = some 9;
  iocb_in = some sample_env.new_iocb;
  iocb_out = some sample_env.new_iocb;
}
