-- ===== src/Bootloader/SuperSpeed.antt =====
-- onekey_usb_bootloader_mode.hpp, `ss_descriptors`: the descriptors for super speed, which `ffs_init`
-- does not write.
use Prim.Native.Nat.{bit_or}
use firmware_x.Prelude.{ℕ}
use firmware_x.System.{EndpointDescriptor, SsEpCompDescriptor, SsFuncDesc, Uapi}
use firmware_x.Bootloader.{intf}

-- functionfs::MAX_PACKET_SIZE_SS
abbrev pub max_packet_size_ss : ℕ
max_packet_size_ss = 3072

module _ (uapi : Uapi) where
  -- `source` and `sink`; `bInterval` is not set.
  abbrev pub ss_endpoint : ℕ → EndpointDescriptor
  ss_endpoint address = record {
    b_length = uapi.sizeof_endpoint_descriptor;
    b_descriptor_type = uapi.dt_endpoint;
    b_endpoint_address = address;
    bm_attributes = uapi.endpoint_xfer_bulk;
    w_max_packet_size = max_packet_size_ss;
    b_interval = 0;
  }

  -- `source_comp` and `sink_comp`
  abbrev pub ss_comp : SsEpCompDescriptor
  ss_comp = record {
    b_length = uapi.sizeof_ss_ep_comp_descriptor;
    b_descriptor_type = uapi.dt_ss_endpoint_comp;
    b_max_burst = 4;
  }

  abbrev pub ss_descriptors : SsFuncDesc
  ss_descriptors = record {
    intf = intf uapi;
    source = ss_endpoint (bit_or 1 uapi.dir_out);
    source_comp = ss_comp;
    sink = ss_endpoint (bit_or 2 uapi.dir_in);
    sink_comp = ss_comp;
  }
