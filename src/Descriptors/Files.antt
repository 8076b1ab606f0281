-- ===== src/Descriptors/Files.antt =====
-- Which endpoint stands behind which file of a mounted functionfs: as the kernel documents them, the
-- files are ep1, ep2 and so on, in the order of the endpoint descriptors.
use firmware_x.Prelude.{
  ℕ, suc, ◌+◌, List, [], ◌∷◌, ◌++◌, take, Option, none, some, ◌==◌, same_bytes, if◌then◌else◌,
}
use firmware_x.System.{Uapi}
use firmware_x.Common.{usb_ffs_ep}

-- `bEndpointAddress` of each endpoint descriptor, in order.
unfoldable pub addresses : Uapi → List (List ℕ) → List ℕ
addresses uapi ((n ∷ type ∷ payload) ∷ descs) =
    let rest = addresses uapi descs in
    if type == uapi.dt_endpoint then take 1 payload ++ rest else rest
addresses uapi (_ ∷ descs) = addresses uapi descs
addresses uapi [] = []

-- The name of the file of the endpoint with this number, from 1 to 9.
abbrev pub ep_name : ℕ → List ℕ
ep_name k = b'e' ∷ b'p' ∷ (b'0' + k) ∷ []

-- The address of the endpoint behind the path, where the next endpoint has the number `k`.
unfoldable pub address_from : ℕ → List ℕ → List ℕ → Option ℕ
address_from k [] path = none
address_from k (address ∷ rest) path =
    let later = address_from (suc k) rest path in
    if same_bytes path (usb_ffs_ep (ep_name k)) then some address else later

abbrev pub endpoint_behind : Uapi → List (List ℕ) → List ℕ → Option ℕ
endpoint_behind uapi descs path = address_from 1 (addresses uapi descs) path
