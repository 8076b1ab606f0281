-- ===== src/System/Traffic.antt =====
-- The calls that transfer something to or from the host.
use firmware_x.Prelude.{List, [], ◌∷◌}
use firmware_x.System.Calls.{Call, io_submit, io_getevents, History}

-- Every submission, and every wait for one; the latest first.
unfoldable pub transfers : History → List Call
transfers [] = []
transfers (io_submit c block ∷ h) = io_submit c block ∷ transfers h
transfers (io_getevents c t ∷ h) = io_getevents c t ∷ transfers h
transfers (_ ∷ h) = transfers h
