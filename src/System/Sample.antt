-- ===== src/System/Sample.antt =====
-- An outside for the tests: every call succeeds, and the descriptors are numbered from 3 on.
use firmware_x.Prelude.{ℕ, ◌+◌, refl, List, [], ◌∷◌, some}
use firmware_x.Prelude.Int.{ℤ, pos}
use firmware_x.System.Structs.{
  InterfaceDescriptor, EndpointDescriptor, FuncDesc, ExtCompatDesc, OsDescHeader, FfsStrings,
}
use firmware_x.System.Calls.{Iocb, IocbRef, Reply, Call, History, Endpoint, Opcode, pread, pwrite}
use firmware_x.System.Monad.{Env, as_documented}

abbrev pub reply : ℕ → IocbRef → Reply
reply n obj = record {
  ret = pos n;
  errno = 0;
  ready = pos 4 ∷ pos 3 ∷ [];
  bytes = [];
  ctx = 9;
  obj = obj;
  res = pos 3;
  buffer = 0x3f ∷ 1 ∷ 2 ∷ [];
  object = some (n + 20);
}

abbrev block : Opcode → ℤ → List ℕ → ℕ → Iocb
block opcode fd buffer offset = record {
  aio_lio_opcode = opcode;
  aio_fildes = fd;
  buffer = buffer;
  offset = offset;
  flags = 0;
  resfd = pos 0;
}

-- The event of the wait belongs to the block that was submitted before it.
abbrev submitted_block : Opcode → IocbRef
submitted_block pread = IocbRef.iocb_out
submitted_block _ = IocbRef.iocb_in

abbrev pub sample_answer : History → Reply
sample_answer [] = reply 0 IocbRef.iocb_in
sample_answer (Call.eventfd ∷ h) = reply 3 IocbRef.iocb_in
sample_answer (Call.open_ep Endpoint.ctrl ∷ h) = reply 4 IocbRef.iocb_in
sample_answer (Call.open_ep Endpoint.ep_in ∷ h) = reply 5 IocbRef.iocb_in
sample_answer (Call.open_ep Endpoint.ep_out ∷ h) = reply 6 IocbRef.iocb_in
sample_answer (Call.mount ∷ h) = reply 0 IocbRef.iocb_in
sample_answer (Call.umount ∷ h) = reply 0 IocbRef.iocb_in
sample_answer (Call.close fd ∷ h) = reply 0 IocbRef.iocb_in
sample_answer (Call.io_getevents c t ∷ Call.io_submit d b ∷ h) =
    reply 1 (submitted_block b.aio_lio_opcode)
sample_answer (Call.usbg_init ∷ h) = reply 0 IocbRef.iocb_in
sample_answer (Call.usbg_create_gadget s a t ∷ h) = reply 0 IocbRef.iocb_in
sample_answer (Call.usbg_create_function g ∷ h) = reply 0 IocbRef.iocb_in
sample_answer (Call.usbg_create_hid_function g a ∷ h) = reply 0 IocbRef.iocb_in
sample_answer (Call.usbg_create_plain_config g t ∷ h) = reply 0 IocbRef.iocb_in
sample_answer (Call.usbg_create_config g a t ∷ h) = reply 0 IocbRef.iocb_in
sample_answer (Call.usbg_add_config_function c f ∷ h) = reply 0 IocbRef.iocb_in
sample_answer (Call.usbg_rm_gadget g ∷ h) = reply 0 IocbRef.iocb_in
sample_answer (Call.usbg_enable_gadget g u ∷ h) = reply 0 IocbRef.iocb_in
sample_answer (Call.usbg_disable_gadget g ∷ h) = reply 0 IocbRef.iocb_in
sample_answer (_ ∷ h) = reply 1 IocbRef.iocb_in

abbrev pub sample_env : Env
sample_env = record {
  rac = as_documented;
  aio = record {
    prep_pwrite = block pwrite;
    prep_pread = block pread;
    pwrite_opcode = λ fd b o. refl;
    pwrite_fildes = λ fd b o. refl;
    pread_opcode = λ fd b o. refl;
    pread_fildes = λ fd b o. refl;
  };
  uapi = record {
    descriptors_magic = 1;
    descriptors_magic_v2 = 3;
    has_fs_desc = 1;
    has_hs_desc = 2;
    has_ss_desc = 4;
    has_ms_os_desc = 8;
    eventfd_flag = 32;
    sizeof_desc_v1 = 62;
    sizeof_desc_v2 = 113;
    sizeof_event = 12;
    enodev = 19;
    dt_interface = 4;
    dt_endpoint = 5;
    dt_ss_endpoint_comp = 48;
    class_vendor_spec = 255;
    dir_in = 128;
    dir_out = 0;
    endpoint_xfer_int = 3;
    endpoint_xfer_bulk = 2;
    strings_magic = 2;
    sizeof_interface_descriptor = 9;
    sizeof_endpoint_descriptor = 7;
    sizeof_ss_ep_comp_descriptor = 6;
    sizeof_os_desc_header = 11;
    sizeof_ext_compat_desc = 24;
    sizeof_strings = 28;
  };
  answer = sample_answer;
  new_iocb = block Opcode.other (pos 0) [] 0;
}

abbrev intf : InterfaceDescriptor
intf = record {
  b_length = 9;
  b_descriptor_type = 4;
  b_interface_number = 0;
  b_num_endpoints = 2;
  b_interface_class = 255;
  b_interface_sub_class = 0;
  b_interface_protocol = 0;
  i_interface = 1;
}

abbrev endpoint : ℕ → EndpointDescriptor
endpoint address = record {
  b_length = 7;
  b_descriptor_type = 5;
  b_endpoint_address = address;
  bm_attributes = 3;
  w_max_packet_size = 64;
  b_interval = 1;
}

abbrev pub sample_desc : FuncDesc
sample_desc = record { intf = intf; source = endpoint 129; sink = endpoint 1 }

abbrev pub sample_compat : ExtCompatDesc
sample_compat = record { b_first_interface_number = 0; reserved1 = 1 }

abbrev pub sample_os_header : OsDescHeader
sample_os_header = record {
  interface = 1;
  dw_length = 35;
  bcd_version = 1;
  w_index = 4;
  b_count = 1;
}

abbrev pub sample_strings : FfsStrings
sample_strings = record {
  header = record { magic = 2; length = 28; str_count = 1; lang_count = 1 };
  code = 0x0409;
  str1 = [];
}
