-- ===== src/Functionfs/Lifecycle/Examples.antt =====
-- `init` and `cleanup` of the handler against an outside where every call succeeds.
use firmware_x.Prelude.{◌≡◌, refl, [], Bool, true, some}
use firmware_x.System.{History, Exit, next}
use firmware_x.System.Sample.{sample_env}
use firmware_x.Functionfs.{Handler}
use firmware_x.Functionfs.Sample.{fresh, up, down}
use firmware_x.Functionfs.Mount.{
  ffs_init, ffs_open, mount_ffs, write_ctrl, open_pipes, ffs_mark, ffs_cleanup, close_pipe,
  close_ctrl,
}
use firmware_x.Functionfs.Aio.{aio_init, aio_cleanup}
use firmware_x.Functionfs.Lifecycle.{init, cleanup}
use firmware_x.Functionfs.Lifecycle.Ready.{Closed, handler_cleanup-Closed}

abbrev ready : Handler
ready = record up {
  aio_initialized = true;
  ctx = some 9;
  iocb_in = some sample_env.new_iocb;
  iocb_out = some sample_env.new_iocb;
}

abbrev run : Exit Bool × Handler × History
run = init sample_env fresh []

run_ready : init sample_env fresh [] ≡ (next true, ready, run.2)
unfolding init ffs_init ffs_open mount_ffs write_ctrl open_pipes ffs_mark aio_init
run_ready = refl

abbrev ended : Exit Bool × Handler × History
ended = cleanup sample_env ready run.2

abbrev gone : Handler
gone = record down { ctx = some 9 }

ended_gone : cleanup sample_env ready run.2 ≡ (next true, gone, ended.2)
unfolding cleanup ffs_cleanup close_pipe close_ctrl aio_cleanup
ended_gone = refl

handler_cleanup-Closed_example : Closed ready gone run.2 ended.2
handler_cleanup-Closed_example =
    handler_cleanup-Closed sample_env ready gone run.2 ended.2 ended_gone
