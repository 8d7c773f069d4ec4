-- ===== src/Startup/Admission.antt =====
-- cmd/gardener-extension-shoot-rsyslog-relp-admission/app/app.go: the start of the admission.
pub mod Laws
pub mod Serves
use gardener_extension_shoot.Common.{
  String, [], ◌∷◌, ◌++◌, Option, none, some, Bool, true, false, not, str_eq, if◌then◌else◌,
}
use gardener_extension_shoot.Common.Outcome.{Outcome, ok, check}
use gardener_extension_shoot.Common.Effect.{Effect, ◌>>=◌, ◌>>◌, done}
use gardener_extension_shoot.Gardener.{Error}
use gardener_extension_shoot.Startup.{
  Call, use_kubeconfig, complete_options, apply_client_connection, build_config, new_manager,
  install_scheme, new_cluster, add_cluster, add_webhooks, add_readyz_check, add_healthz_check,
  start, Calls, Environment, note, returns, call, call_wrapped,
}

-- `sourceClusterConfig`, which is also the configuration of the leader election, and the namespace
-- that the cache is restricted to
pub record Source (C : Type 0) : Type 0 where
  pub config : Option C
  pub cache_namespace : Option String

module _ {C : Type 0} (environment : Environment C) where
  abbrev pub is_set : String → Bool
  is_set name = not (str_eq (environment.getenv name) "")

  unfoldable pub use_garden_kubeconfig : Effect Error (Calls C) (Unit {0})
  use_garden_kubeconfig =
      if is_set "GARDEN_KUBECONFIG"
      then note (use_kubeconfig (environment.getenv "GARDEN_KUBECONFIG"))
      else done

  -- `if sourceClusterEnabled := …; sourceClusterEnabled != "" { … } else { … }`
  unfoldable pub source_of_environment : Effect Error (Calls C) (Source C)
  source_of_environment =
      let path : String = environment.getenv "SOURCE_KUBECONFIG" in
      if is_set "SOURCE_CLUSTER"
      then call environment (build_config path)
        >> returns (record { config = environment.built_config path; cache_namespace = none })
      else returns (record { config = none; cache_namespace = some environment.server_namespace })

  -- `if sourceClusterConfig != nil { … }`
  unfoldable pub add_source_cluster : Option C → Effect Error (Calls C) (Unit {0})
  add_source_cluster none = done
  add_source_cluster (some config) = do
    call environment (new_cluster config environment.garden_namespace)
    call environment (add_readyz_check "source-informer-sync")
    call environment add_cluster

  abbrev pub has_source : Option C → Bool
  has_source none = false
  has_source (some config) = true

  -- from the webhook server to the start
  unfoldable pub serve : Option C → Effect Error (Calls C) (Unit {0})
  serve source = do
    call environment (add_webhooks (has_source source))
    call_wrapped environment "could not add readycheck for informers: "
        (add_readyz_check "informer-sync")
    call_wrapped environment "could not add healthcheck: " (add_healthz_check "ping")
    call_wrapped environment "could not add readycheck of webhook to manager: "
        (add_readyz_check "webhook-server")
    call environment start

  -- with the manager that is started for a source
  unfoldable pub run_manager : Source C → Effect Error (Calls C) (Unit {0})
  unfolding add_source_cluster serve
  run_manager source = do
    call_wrapped environment "could not instantiate manager: "
        (new_manager source.config source.cache_namespace)
    note (install_scheme "core")
    note (install_scheme "rsyslog")
    add_source_cluster source.config
    serve source.config

  -- RunE of the command
  unfoldable pub run_admission : Effect Error (Calls C) (Unit {0})
  unfolding use_garden_kubeconfig source_of_environment run_manager
  run_admission = do
    use_garden_kubeconfig
    call_wrapped environment "error completing options: " complete_options
    note (apply_client_connection 100 130)
    source ← source_of_environment
    run_manager source
