-- ===== src/Descriptors/SuperSpeed.antt =====
-- onekey_usb_functionfs.hpp, struct ss_func_desc: its bytes, read as descriptors.
use firmware_x.Prelude.{◌≡◌, List, [], ◌∷◌, ℕ, some, arith, append-nil, concat}
use firmware_x.System.{SsEpCompDescriptor, SsFuncDesc, Uapi}
use firmware_x.Descriptors.{
  Layout, interface_bytes, endpoint_bytes, ss_ep_comp_bytes, ss_func_desc_bytes,
}
use firmware_x.Descriptors.Documented.{Documented}
use firmware_x.Descriptors.Format.{read_descriptor, read_many}
use firmware_x.Descriptors.Reading.{IsRead, descriptor-IsRead, read_many-concat}
use firmware_x.Descriptors.Written.{interface-IsRead, endpoint-IsRead}

pub record IsSsSized (uapi : Uapi) (f : SsFuncDesc) : Type 0 where
  pub intf : f.intf.b_length ≡ uapi.sizeof_interface_descriptor
  pub source : f.source.b_length ≡ uapi.sizeof_endpoint_descriptor
  pub source_comp : f.source_comp.b_length ≡ uapi.sizeof_ss_ep_comp_descriptor
  pub sink : f.sink.b_length ≡ uapi.sizeof_endpoint_descriptor
  pub sink_comp : f.sink_comp.b_length ≡ uapi.sizeof_ss_ep_comp_descriptor

module _ {uapi : Uapi} (layout : Layout uapi) where
  -- The five descriptors of an ss_func_desc.
  abbrev pub ss_descs : SsFuncDesc → List (List ℕ)
  ss_descs f =
      interface_bytes layout f.intf
      ∷ endpoint_bytes layout f.source
      ∷ ss_ep_comp_bytes layout f.source_comp
      ∷ endpoint_bytes layout f.sink
      ∷ ss_ep_comp_bytes layout f.sink_comp
      ∷ []

  module _ (documented : Documented uapi) where
    ss_ep_comp-IsRead :
        (d : SsEpCompDescriptor)
        → d.b_length ≡ uapi.sizeof_ss_ep_comp_descriptor
        → IsRead read_descriptor (ss_ep_comp_bytes layout d)
    unfolding ss_ep_comp_bytes
    ss_ep_comp-IsRead d h =
        descriptor-IsRead d.b_length _ (omega (arith, h, documented.ss_ep_comp_size))
          (omega (arith, h, layout.ss_ep_comp_size d))

    pub read_ss_func_desc :
        (f : SsFuncDesc)
        → IsSsSized uapi f
        → read_many read_descriptor 5 (ss_func_desc_bytes layout f) ≡ some (ss_descs f, [])
    unfolding ss_func_desc_bytes
    read_ss_func_desc f sized = rw (append-nil (concat (ss_descs f))) at (
        read_many-concat read_descriptor (ss_descs f) [] (
          interface-IsRead layout documented f.intf sized.intf,
          (
            endpoint-IsRead layout documented f.source sized.source,
            (
              ss_ep_comp-IsRead f.source_comp sized.source_comp,
              (
                endpoint-IsRead layout documented f.sink sized.sink,
                (ss_ep_comp-IsRead f.sink_comp sized.sink_comp, tt),
              ),
            ),
          ),
        ))
