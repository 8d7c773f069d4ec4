-- ===== src/Tests/Startup.antt =====
-- The start of the two programs.
use gardener_extension_shoot.Common.{
  String, Text, codes, inl, inr, ◌⊎◌, [], ◌∷◌, some, none, ◌≡◌, refl, str_eq, if◌then◌else◌,
}
use gardener_extension_shoot.Common.Outcome.{ok, err}
use gardener_extension_shoot.Gardener.{Error, external, wrapped}
use gardener_extension_shoot.Startup.{
  use_kubeconfig, complete_options, apply_client_connection, new_manager, Environment,
}
use gardener_extension_shoot.Startup.Laws.{Progress}
use gardener_extension_shoot.Startup.Admission.{run_admission}
use gardener_extension_shoot.Startup.Admission.Laws.{admission_calls}
use gardener_extension_shoot.Startup.Admission.Serves.{run_admission-Progress}
use gardener_extension_shoot.Startup.Controller.{run_controller}
use gardener_extension_shoot.Startup.Controller.Serves.{controller_calls, run_controller-Progress}
use gardener_extension_shoot.Startup.Options.{
  Configuration, Options, complete, IsComplete, complete-IsComplete,
}

-- with a source cluster, and no call that fails
abbrev environment : Environment String
environment = record {
  getenv = λ name. if str_eq name "GARDEN_KUBECONFIG" then "" else name;
  server_namespace = "garden";
  garden_namespace = "garden";
  error_text = λ e. "";
  failure = λ calls c. none;
  built_config = some;
}

-- without a source cluster, and no manager can be built
abbrev no_manager : Environment String
no_manager = record environment {
  getenv = λ name. if str_eq name "GARDEN_KUBECONFIG" then name else "";
  failure = λ calls c. elim c [ new_manager config namespace ↦ some (external "busy") | _ ↦ none ];
}

stops : run_admission no_manager [] ≡ (
  err (wrapped "could not instantiate manager: " (external "busy")),
  use_kubeconfig "GARDEN_KUBECONFIG"
      ∷ complete_options
      ∷ apply_client_connection 100 130
      ∷ new_manager none (some "garden")
      ∷ [],
)
unfolding run_admission
stops = refl

run_admission-Progress_example :
    Progress no_manager (admission_calls no_manager) tt [] (run_admission no_manager [])
run_admission-Progress_example = run_admission-Progress no_manager

run_controller-Progress_example :
    Progress no_manager (controller_calls no_manager) tt [] (run_controller no_manager [])
run_controller-Progress_example = run_controller-Progress no_manager

abbrev configuration : Configuration
configuration = record { type_meta = record { kind = "Configuration"; api_version = "v1" } }

abbrev read_file : String → Error ⊎ Text
read_file path = if str_eq path "/etc/config" then inr (codes "{}") else inl (external "missing")

abbrev options : Options
options = record { config_location = "/etc/config"; config = none }

abbrev decode : Text → Error ⊎ Configuration
decode contents = inr configuration

missing_file :
    complete read_file decode (record options { config_location = "/tmp" })
    ≡ (err (external "missing"), record options { config_location = "/tmp" })
unfolding complete
missing_file = refl

complete-IsComplete_example :
    ((e : Error) × (complete read_file decode options ≡ (err e, options)))
    ⊎ (((complete read_file decode options).0 ≡ ok tt)
        × IsComplete read_file decode options (complete read_file decode options).1)
complete-IsComplete_example = complete-IsComplete read_file decode options
