-- ===== src/Common.antt =====
-- onekey_usb_common.hpp: the names of the files of the mounted functionfs, as their bytes.
use firmware_x.Prelude.{ℕ, List, [], ◌∷◌, ◌++◌}
use firmware_x.System.{Endpoint, ctrl, ep_in, ep_out}

-- USB_FFS_PATH, "/dev/onekeyusb"
abbrev pub usb_ffs_path : List ℕ
usb_ffs_path =
    b'/' ∷ b'd' ∷ b'e' ∷ b'v' ∷ b'/' ∷ b'o' ∷ b'n' ∷ b'e' ∷ b'k' ∷ b'e' ∷ b'y' ∷ b'u' ∷ b's' ∷ b'b'
    ∷ []

-- USB_FFS_EP
abbrev pub usb_ffs_ep : List ℕ → List ℕ
usb_ffs_ep ep = usb_ffs_path ++ b'/' ∷ ep

abbrev pub usb_ffs_ctrl : List ℕ
usb_ffs_ctrl = usb_ffs_ep (b'e' ∷ b'p' ∷ b'0' ∷ [])

abbrev pub usb_ffs_in : List ℕ
usb_ffs_in = usb_ffs_ep (b'e' ∷ b'p' ∷ b'1' ∷ [])

abbrev pub usb_ffs_out : List ℕ
usb_ffs_out = usb_ffs_ep (b'e' ∷ b'p' ∷ b'2' ∷ [])

-- The path that each of the three calls of `open` is given.
abbrev pub path : Endpoint → List ℕ
path ctrl = usb_ffs_ctrl
path ep_in = usb_ffs_in
path ep_out = usb_ffs_out
