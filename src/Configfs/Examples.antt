-- ===== src/Configfs/Examples.antt =====
-- The configfs handle against an outside where every call succeeds, and one where there is no UDC.
use firmware_x.Prelude.{◌≡◌, refl, [], ◌∷◌, Bool, true, none, some}
use firmware_x.System.{usbg_enable_gadget, usbg_get_udc, History, Env, Exit, next, Reply}
use firmware_x.System.Sample.{sample_env}
use firmware_x.System.Tidy.{cleanups}
use firmware_x.Configfs.{ConfigfsHandle, create_gadget, create_parts, find_udc, init, enable}
use firmware_x.Configfs.Sample.{with_udc, fresh}
use firmware_x.Configfs.Setup.{Configured, made_calls, configfs_init-true}
use firmware_x.Configfs.Tidy.{Tidied, cleaned_calls, configfs_init-Tidied, enable_after_cleanup}

abbrev up : ConfigfsHandle
up = with_udc (some 20) (some 21)

abbrev run : Exit Bool × ConfigfsHandle × History
run = init sample_env fresh []

up_run : init sample_env fresh [] ≡ (next true, up, run.2)
unfolding init create_gadget create_parts find_udc
up_run = refl

configfs_init-true_example : Configured fresh up [] run.2
configfs_init-true_example = configfs_init-true sample_env fresh up [] run.2 up_run

configfs_init-Tidied_example : Tidied (cleanups []) (init sample_env fresh [])
configfs_init-Tidied_example = configfs_init-Tidied sample_env fresh []

-- No UDC.
abbrev no_udc : History → Reply
no_udc (usbg_get_udc s ∷ h) = record (sample_env.answer []) { object = none }
no_udc h = sample_env.answer h

abbrev bare_env : Env
bare_env = record sample_env { answer = no_udc }

abbrev bare : ConfigfsHandle
bare = with_udc (some 20) none

abbrev bare_run : Exit Bool × ConfigfsHandle × History
bare_run = init bare_env fresh []

bare_up : init bare_env fresh [] ≡ (next true, bare, bare_run.2)
unfolding init create_gadget create_parts find_udc
bare_up = refl

enable_after_cleanup_example :
    (enable bare_env bare bare_run.2).2
    ≡ usbg_enable_gadget (some 20) none ∷ cleaned_calls 20 (made_calls fresh bare [])
enable_after_cleanup_example =
    enable_after_cleanup bare_env fresh bare [] bare_run.2 20 bare_up refl refl
