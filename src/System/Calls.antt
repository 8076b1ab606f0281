-- ===== src/System/Calls.antt =====
-- The calls with their arguments, and the answers.
use firmware_x.Prelude.{ℕ, List, Option}
use firmware_x.Prelude.Int.{ℤ}
use firmware_x.System.Structs.{
  DescV2, FfsStrings, GadgetAttrs, GadgetStrs, ConfigAttrs, ConfigStrs, HidAttrs,
}

-- A pointer that may be null.
abbrev pub Pointer : Type 0
Pointer = Option ℕ

-- The files of the mounted functionfs.
pub data Endpoint : Type 0 where
  ctrl ep_in ep_out : Endpoint

pub data Opcode : Type 0 where
  pread pwrite other : Opcode

-- libaio's control block, with the fields that the program sets or reads. `buffer` is what the
-- memory under the block's pointer holds when the block is prepared.
pub record Iocb : Type 0 where
  pub aio_lio_opcode : Opcode
  pub aio_fildes : ℤ
  pub buffer : List ℕ
  pub offset : ℕ
  pub flags : ℕ
  pub resfd : ℤ

-- Which of the program's two control blocks an event points to.
pub data IocbRef : Type 0 where
  iocb_in iocb_out : IocbRef

-- The requests of linux/usb/functionfs.h to an endpoint.
pub data Request : Type 0 where
  fifo_status fifo_flush clear_halt : Request

pub data Call : Type 0 where
  eventfd : Call
  exists_path remove_path create_directories : Call
  mount umount : Call
  open_ep : Endpoint → Call
  write_descriptor : ℤ → DescV2 → Call
  write_strings : ℤ → FfsStrings → Call
  close : ℤ → Call
  ioctl : ℤ → Request → Call
  -- `nfds`, the read set and the microseconds of the timeout
  select : ℤ → List ℤ → ℤ → Call
  read : ℤ → ℕ → Call
  io_setup : Call
  io_destroy : ℕ → Call
  io_submit : ℕ → Iocb → Call
  -- the context, and the nanoseconds of the timeout, if there is one
  io_getevents : ℕ → Option ℤ → Call
  usbg_init : Call
  usbg_create_gadget : Pointer → GadgetAttrs → GadgetStrs → Call
  usbg_create_function : Pointer → Call
  usbg_create_hid_function : Pointer → HidAttrs → Call
  -- with a null pointer in the place of the attributes
  usbg_create_plain_config : Pointer → ConfigStrs → Call
  usbg_create_config : Pointer → ConfigAttrs → ConfigStrs → Call
  usbg_add_config_function : Pointer → Pointer → Call
  usbg_get_udc : Pointer → Call
  usbg_rm_gadget : Pointer → Call
  usbg_enable_gadget : Pointer → Pointer → Call
  usbg_disable_gadget : Pointer → Call
  usbg_cleanup : ℕ → Call

-- What a call gives back; each call has a use for some of the fields.
pub record Reply : Type 0 where
  -- the value returned; for std::filesystem 0 is false, and a negative number is an exception
  pub ret : ℤ
  pub errno : ℕ
  -- the read set that `select` leaves
  pub ready : List ℤ
  -- the bytes that `read` leaves in its buffer
  pub bytes : List ℕ
  -- the context that `io_setup` makes
  pub ctx : ℕ
  -- the event of `io_getevents`: its control block, and its result, before any cast of that
  pub obj : IocbRef
  pub res : ℤ
  -- what the buffer under the control block of that event then holds
  pub buffer : List ℕ
  -- the object of libusbgx that the call has made or found; null if there is none
  pub object : Pointer

-- All calls made so far, the latest first.
abbrev pub History : Type 0
History = List Call
