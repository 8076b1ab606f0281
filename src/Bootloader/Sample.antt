-- ===== src/Bootloader/Sample.antt =====
-- A bootloader for the tests, and the parts that are generated.
use firmware_x.Prelude.{[], replicate}
use firmware_x.Prelude.Int.{pos, minus_one}
use firmware_x.Functionfs.{enable}
use firmware_x.Functionfs.Sample as FunctionfsSample
use firmware_x.Configfs.Sample as ConfigfsSample
use firmware_x.Protocol.{message_reset}
use firmware_x.Bootloader.{Bootloader}
use firmware_x.Bootloader.Service.{Generated, Locals}

abbrev pub new_bootloader : Bootloader
new_bootloader = record {
  cfs_h = ConfigfsSample.fresh;
  ffs_h = FunctionfsSample.fresh;
  parser_h = record { message_composed_pack = []; parsed = message_reset };
  composer_h = record { message_composed_pack = []; parsed = message_reset };
  usb_timeout_ms = pos 1000;
}

-- Every control event says that the function is enabled.
abbrev pub sample_generated : Generated
sample_generated = record {
  message_type_features = 17;
  feature_serialized = replicate 84 7;
  event_type = λ bytes. enable;
}

abbrev pub new_locals : Locals
new_locals = record { buf_ctrl = []; buf_read_host = []; res = minus_one; eventfd_result = [] }
