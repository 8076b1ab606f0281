-- ===== src/Bootloader/Examples.antt =====
-- The bootloader against an outside where every call succeeds.
use firmware_x.Prelude.{
  ℕ, ◌≡◌, refl, List, [], ◌∷◌, map, replicate, Bool, true, false, some, ltb→lt, leb→le, arith,
}
use firmware_x.Prelude.Int.{pos, negsuc, minus_one, to_int32}
use firmware_x.System.{History, Exit, next, Env, Reply, open_ep, ctrl, ep_in, ep_out}
use firmware_x.System.Monad
use firmware_x.System.Sample.{sample_env}
use firmware_x.Functionfs.{aio_set_timeout}
use firmware_x.Functionfs.Sample.{running}
use firmware_x.Functionfs.Mount.{ffs_init, ffs_open, mount_ffs, write_ctrl, open_pipes, ffs_mark}
use firmware_x.Functionfs.Aio.{aio_init}
use firmware_x.Functionfs.Lifecycle
use firmware_x.Configfs
use firmware_x.Configfs.{create_gadget, create_parts, find_udc}
use firmware_x.Protocol.Host.{host_decode}
use firmware_x.Bootloader.{Bootloader, init, fs_descriptors}
use firmware_x.Common.{path}
use firmware_x.Descriptors.{ss_func_desc_bytes}
use firmware_x.Descriptors.Files.{endpoint_behind}
use firmware_x.Descriptors.Format.{read_many, read_descriptor}
use firmware_x.Descriptors.Sample.{sample_layout, sample_documented}
use firmware_x.Descriptors.SuperSpeed.{ss_descs}
use firmware_x.Descriptors.Written.{func_descs}
use firmware_x.Bootloader.SuperSpeed.{ss_descriptors}
use firmware_x.Bootloader.Written.{Told, init_tells}
use firmware_x.Bootloader.Pipes.{pipes_lem}
use firmware_x.Bootloader.Setup.{Running, bootloader_init-Running}
use firmware_x.System.Undone.{undone}
use firmware_x.Bootloader.Failure.{bootloader_init_undoes_nothing}
use firmware_x.Bootloader.Service.{pull_host, respond, response, Locals, Round, round}
use firmware_x.Bootloader.Service.Short.{short_read_undefined}
use firmware_x.Functionfs.Aio.{
  read_host, read_host_body, submit_and_wait, check_read, resize, overwrite,
}
use firmware_x.Bootloader.Service.Wire.{blocks, pushed, answer_is_sent}
use firmware_x.Functionfs.Aio.Transfers.{write_block}
use firmware_x.Protocol.{MessageComposed}
use firmware_x.Bootloader.Service.Outside.{WholePackets}
use firmware_x.Bootloader.Service.Safe.{round_returns}
use firmware_x.Functionfs.Aio.Pointers.{Pointers}
use firmware_x.Bootloader.Sample.{new_bootloader, sample_generated, new_locals}

abbrev run : Exit Bool × Bootloader × History
run = init sample_env new_bootloader []

run_true : init sample_env new_bootloader [] ≡ (next true, run.1, run.2)
unfolding init aio_set_timeout Configfs.init create_gadget create_parts find_udc Lifecycle.init
    ffs_init ffs_open mount_ffs write_ctrl open_pipes ffs_mark aio_init Configfs.enable
run_true = refl

bootloader_init-Running_example : Running sample_env new_bootloader run.1 [] run.2
bootloader_init-Running_example =
    bootloader_init-Running sample_env new_bootloader run.1 [] run.2 run_true

init_tells_example : Told sample_env sample_layout sample_documented run.1 run.2
init_tells_example =
    init_tells sample_env sample_layout sample_documented new_bootloader run.1 [] run.2 run_true

pipes_lem_example :
    let fs = func_descs sample_layout sample_documented (fs_descriptors sample_env.uapi) in
    let ss = ss_descs sample_layout (ss_descriptors sample_env.uapi) in
    let behind = endpoint_behind sample_env.uapi in
    (behind fs (path ep_in) ≡ some 129)
    × (behind fs (path ep_out) ≡ some 1)
    × (behind fs (path ep_in) ≡ some 129)
    × (behind fs (path ep_out) ≡ some 1)
    × (read_many read_descriptor 5
          (ss_func_desc_bytes sample_layout (ss_descriptors sample_env.uapi))
        ≡ some (ss, []))
    × (behind ss (path ep_in) ≡ some 1)
    × (behind ss (path ep_out) ≡ some 130)
pipes_lem_example = pipes_lem sample_layout sample_documented

abbrev ready : Bootloader
ready = record new_bootloader { ffs_h = running }

abbrev packet : List ℕ
packet = 0x3f ∷ 0x23 ∷ 0x23 ∷ replicate 61 0

-- Each transfer has two bytes.
abbrev two_env : Env
two_env = record sample_env { answer = λ h. record (sample_env.answer h) { res = pos 2 } }

abbrev two_bytes : List ℕ
two_bytes = 0x3f ∷ 1 ∷ []

two_read :
    (read_host two_env new_locals.buf_read_host minus_one ready.ffs_h []).0
    ≡ next (true, two_bytes, pos 2)
unfolding read_host read_host_body submit_and_wait check_read to_int32 resize overwrite
two_read = refl

short_read_undefined_example :
    (pull_host two_env sample_generated true new_locals ready []).0 ≡ Monad.undefined
short_read_undefined_example =
    short_read_undefined two_env sample_generated new_locals ready [] two_bytes (pos 2) two_read
      (ltb→lt _ _ refl)

-- The same outside, but the control file cannot be opened.
abbrev no_ctrl : History → Reply
no_ctrl (open_ep ctrl ∷ h) = record (sample_env.answer []) { ret = negsuc 0 }
no_ctrl h = sample_env.answer h

abbrev ctrl_env : Env
ctrl_env = record sample_env { answer = no_ctrl }

-- The gadget is made and the file system mounted, and then `init` returns false.
init_fails : (init ctrl_env new_bootloader []).0 ≡ next false
unfolding init aio_set_timeout Configfs.init create_gadget create_parts find_udc Lifecycle.init
    ffs_init ffs_open mount_ffs write_ctrl
init_fails = refl

bootloader_init_undoes_nothing_example : undone (init ctrl_env new_bootloader []).2 ≡ undone []
bootloader_init_undoes_nothing_example = bootloader_init_undoes_nothing ctrl_env new_bootloader []

ready-Pointers : Pointers ready.ffs_h
ready-Pointers = record {
  c = 9;
  i = sample_env.new_iocb;
  o = sample_env.new_iocb;
  has_ctx = refl;
  has_in = refl;
  has_out = refl;
}

-- Each transfer has 64 bytes.
abbrev packet_env : Env
packet_env = record sample_env { answer = λ h. record (sample_env.answer h) { res = pos 64 } }

whole : WholePackets packet_env sample_generated
unfolding to_int32
whole = record { packets = λ h n e. ground arith; enough = leb→le _ _ refl; fits = ltb→lt _ _ refl }

round_returns_example :
    (r : Round) × (l : Locals) × (t : Bootloader) × (k : History) × (round packet_env
        sample_generated new_locals ready []
      ≡ (next (r, l), t, k))
round_returns_example =
    round_returns packet_env sample_generated new_locals ready [] whole
      (record { pointers = ready-Pointers; ctrl_fits = refl; event_fits = refl })

answer_is_sent_example :
    (packets : List MessageComposed) × ((respond sample_env sample_generated packet ready []).0
      ≡ next tt)
    × (blocks (respond sample_env sample_generated packet ready []).2
        ≡ pushed (map (write_block sample_env ready.ffs_h) packets) (blocks []))
    × (host_decode packets ≡ some (response sample_env sample_generated))
answer_is_sent_example =
    answer_is_sent sample_env sample_generated packet ready [] ready-Pointers (leb→le _ _ refl)
      (leb→le _ _ refl) (ltb→lt _ _ refl)
