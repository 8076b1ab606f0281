-- ===== src/Configfs/Sample.antt =====
-- A configfs handle for the tests.
use firmware_x.Prelude.{[], none}
use firmware_x.System.{Pointer}
use firmware_x.Configfs.{ConfigfsHandle}

abbrev pub with_udc : Pointer → Pointer → ConfigfsHandle
with_udc p u = record {
  g_attrs = record {
    bcd_usb = 0x0210;
    b_device_class = 0;
    b_device_sub_class = 0;
    b_device_protocol = 0;
    b_max_packet_size0 = 64;
    id_vendor = 0x1209;
    id_product = 0x53c0;
    bcd_device = 0x0200;
  };
  g_strs = record { manufacturer = []; product = []; serial = [] };
  c_strs = record { configuration = [] };
  c_attrs = record { bm_attributes = 0x80; b_max_power = 250 };
  s = p;
  u = u;
  g = p;
  c = p;
  f_ffs_data = p;
}

abbrev pub fresh : ConfigfsHandle
fresh = with_udc none none
