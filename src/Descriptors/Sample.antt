-- ===== src/Descriptors/Sample.antt =====
-- The structs of the kernel's headers as bytes, for the tests.
use firmware_x.Prelude.{[], ◌∷◌, replicate, refl}
use firmware_x.Protocol.{byte_of}
use firmware_x.System.Sample.{sample_env}
use firmware_x.Descriptors.{Layout}
use firmware_x.Descriptors.Documented.{Documented}

abbrev pub sample_layout : Layout sample_env.uapi
sample_layout = record {
  interface_payload = λ d.
      d.b_interface_number ∷ 0 ∷ d.b_num_endpoints ∷ d.b_interface_class ∷ d.b_interface_sub_class
      ∷ d.b_interface_protocol ∷ d.i_interface ∷ [];
  endpoint_payload = λ d.
      d.bm_attributes
      ∷ byte_of d.w_max_packet_size 0
      ∷ byte_of d.w_max_packet_size 1
      ∷ d.b_interval
      ∷ [];
  ss_ep_comp_payload = λ d. d.b_max_burst ∷ 0 ∷ 0 ∷ 0 ∷ [];
  os_header_payload = λ d.
      byte_of d.bcd_version 0
      ∷ byte_of d.bcd_version 1
      ∷ byte_of d.w_index 0
      ∷ byte_of d.w_index 1
      ∷ d.b_count
      ∷ 0
      ∷ [];
  ext_compat = λ d. d.b_first_interface_number ∷ d.reserved1 ∷ replicate 22 0;
  interface_size = λ d. refl;
  endpoint_size = λ d. refl;
  ss_ep_comp_size = λ d. refl;
  os_header_size = λ d. refl;
  ext_compat_size = λ d. refl;
}

abbrev pub sample_documented : Documented sample_env.uapi
sample_documented = record {
  has_fs = refl;
  has_hs = refl;
  has_ss = refl;
  has_os = refl;
  has_eventfd = refl;
  magic_v1 = refl;
  magic = refl;
  strings_magic = refl;
  dt_interface = refl;
  dt_endpoint = refl;
  dt_ss_endpoint_comp = refl;
  dir_in = refl;
  dir_out = refl;
  interface_size = refl;
  endpoint_size = refl;
  ss_ep_comp_size = refl;
  os_header_size = refl;
  ext_compat_size = refl;
  strings_size = refl;
  desc_v1_size = refl;
  desc_v2_size = refl;
}
