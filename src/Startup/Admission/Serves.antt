-- ===== src/Startup/Admission/Serves.antt =====
-- The start of the admission, up to the first call that fails.
use gardener_extension_shoot.Common.{[]}
use gardener_extension_shoot.Startup.{Environment}
use gardener_extension_shoot.Startup.Laws.{Progress}
use gardener_extension_shoot.Startup.Admission.{run_admission}
use gardener_extension_shoot.Startup.Admission.Laws.{admission_calls, run_admission-Follows}

module _ {C : Type 0} (environment : Environment C) where
  -- The start of the admission makes the calls of admission_calls in their order. It returns an error
  -- if one of them fails, which is then the last that it makes; otherwise it makes all of them. It does
  -- not panic.
  pub run_admission-Progress :
      Progress environment (admission_calls environment) tt [] (run_admission environment [])
  run_admission-Progress = run_admission-Follows environment []
