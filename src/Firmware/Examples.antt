-- ===== src/Firmware/Examples.antt =====
-- An object of the class against an outside where every call succeeds.
use firmware_x.Prelude.{◌≡◌, refl, [], ◌∷◌, true, false, length}
use firmware_x.System.{next}
use firmware_x.System.Sample.{sample_env}
use firmware_x.Firmware.{
  FirmwareLibs, construct, create_gadget, create_parts, enable_gadget, init, destroy,
}
use firmware_x.Firmware.Setup.{Initialised, firmware_init_lem}
use firmware_x.Firmware.Lifetime.{initialise, clean_up, run_uses, destroy_does_nothing}

abbrev libs : FirmwareLibs
libs = record {
  fido_report_desc = 0x06 ∷ 0xd0 ∷ 0xf1 ∷ [];
  einval = 22;
  checked = λ result member. result;
  stored = λ result member. member;
}

-- `init` succeeds, with six calls.
init_succeeds : (init sample_env libs (construct sample_env libs) []).0 ≡ next true
unfolding init create_gadget create_parts enable_gadget
init_succeeds = refl

six_calls : length (init sample_env libs (construct sample_env libs) []).2 ≡ 6
unfolding init create_gadget create_parts enable_gadget
six_calls = refl

firmware_init_lem_example :
    Initialised sample_env libs
      (construct sample_env libs)
      []
      (init sample_env libs (construct sample_env libs) [])
firmware_init_lem_example = firmware_init_lem sample_env libs (construct sample_env libs) []

destroy_does_nothing_example :
    let t =
      run_uses sample_env libs
        (initialise ∷ clean_up ∷ initialise ∷ [])
        (construct sample_env libs)
        [] in
    (t.0.is_inited ≡ false) × (destroy sample_env libs t.0 t.1 ≡ (next true, t.0, t.1))
destroy_does_nothing_example =
    destroy_does_nothing sample_env libs (initialise ∷ clean_up ∷ initialise ∷ [])
