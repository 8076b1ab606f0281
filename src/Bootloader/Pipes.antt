-- ===== src/Bootloader/Pipes.antt =====
-- The endpoints behind the files that the handler of onekey_usb_functionfs.hpp opens for the two pipes,
-- by the descriptors of onekey_usb_bootloader_mode.hpp.
use Prim.Native.Nat.{bit_or}
use firmware_x.Prelude.{◌≡◌, refl, [], ◌∷◌, some}
use firmware_x.System.{Uapi, ep_in, ep_out}
use firmware_x.Common.{path}
use firmware_x.Descriptors.{
  Layout, interface_bytes, endpoint_bytes, ss_ep_comp_bytes, ss_func_desc_bytes,
}
use firmware_x.Descriptors.Documented.{Documented}
use firmware_x.Descriptors.Files.{addresses, address_from, endpoint_behind}
use firmware_x.Descriptors.Format.{read_many, read_descriptor}
use firmware_x.Descriptors.SuperSpeed.{IsSsSized, ss_descs, read_ss_func_desc}
use firmware_x.Descriptors.Written.{func_descs}
use firmware_x.Bootloader.{fs_descriptors, hs_descriptors}
use firmware_x.Bootloader.SuperSpeed.{ss_descriptors}

module _ {uapi : Uapi} (layout : Layout uapi) (documented : Documented uapi) where
  addresses_lem :
      addresses uapi (func_descs layout documented (fs_descriptors uapi))
      ≡ bit_or 1 uapi.dir_in ∷ bit_or 1 uapi.dir_out ∷ []
  unfolding addresses interface_bytes endpoint_bytes
  addresses_lem = rw (documented.dt_interface, documented.dt_endpoint) refl

  ss_sized : IsSsSized uapi (ss_descriptors uapi)
  ss_sized = record {
    intf = refl;
    source = refl;
    source_comp = refl;
    sink = refl;
    sink_comp = refl;
  }

  ss_addresses_lem :
      addresses uapi (ss_descs layout (ss_descriptors uapi))
      ≡ bit_or 1 uapi.dir_out ∷ bit_or 2 uapi.dir_in ∷ []
  unfolding addresses interface_bytes endpoint_bytes ss_ep_comp_bytes
  ss_addresses_lem =
      rw (documented.dt_interface, documented.dt_endpoint, documented.dt_ss_endpoint_comp) refl

  -- By the descriptors for full and for high speed, the file that the handler opens as its in pipe is the
  -- endpoint 1 of the direction in, and the file of the out pipe is the endpoint 1 of the direction out.
  -- The bytes of the descriptors for super speed, which are not written, are read as these five, with
  -- nothing left over; but by them the file of the in pipe would be the endpoint 1 of the direction out,
  -- and the file of the out pipe the endpoint 2 of the direction in. The kernel numbers the files in the
  -- order of the endpoint descriptors, and its constants are as documented.
  pub pipes_lem :
      let fs = func_descs layout documented (fs_descriptors uapi) in
      let hs = func_descs layout documented (hs_descriptors uapi) in
      let ss = ss_descs layout (ss_descriptors uapi) in
      (endpoint_behind uapi fs (path ep_in) ≡ some (bit_or 1 uapi.dir_in))
      × (endpoint_behind uapi fs (path ep_out) ≡ some (bit_or 1 uapi.dir_out))
      × (endpoint_behind uapi hs (path ep_in) ≡ some (bit_or 1 uapi.dir_in))
      × (endpoint_behind uapi hs (path ep_out) ≡ some (bit_or 1 uapi.dir_out))
      × (read_many read_descriptor 5 (ss_func_desc_bytes layout (ss_descriptors uapi))
          ≡ some (ss, []))
      × (endpoint_behind uapi ss (path ep_in) ≡ some (bit_or 1 uapi.dir_out))
      × (endpoint_behind uapi ss (path ep_out) ≡ some (bit_or 2 uapi.dir_in))
  unfolding address_from
  pipes_lem = (
    rw addresses_lem refl,
    rw addresses_lem refl,
    rw addresses_lem refl,
    rw addresses_lem refl,
    read_ss_func_desc layout documented (ss_descriptors uapi) ss_sized,
    rw ss_addresses_lem refl,
    rw ss_addresses_lem refl,
  )
