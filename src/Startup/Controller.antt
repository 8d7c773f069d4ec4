-- ===== src/Startup/Controller.antt =====
-- cmd/gardener-extension-shoot-rsyslog-relp/app/app.go: the start of the extension's controllers.
pub mod Serves
use gardener_extension_shoot.Common.{[], ◌∷◌, false}
use gardener_extension_shoot.Common.Effect.{Effect, ◌>>◌}
use gardener_extension_shoot.Gardener.{Error}
use gardener_extension_shoot.Startup.{
  complete_options, apply_client_connection, validate_heartbeat, new_uncached_manager,
  add_to_scheme, apply_options, add_controllers, add_webhooks, add_readyz_check, add_healthz_check,
  start, Calls, Environment, note, call, call_wrapped, call_formatted,
}

module _ {C : Type 0} (environment : Environment C) where
  unfoldable pub add_to_schemes : Effect Error (Calls C) (Unit {0})
  add_to_schemes = do
    call_formatted environment "could not update manager scheme: " (add_to_scheme "extensions")
    call_formatted environment "could not update manager scheme: " (add_to_scheme "rsyslog")
    call_wrapped environment "could not update manager scheme: " (add_to_scheme "monitoring/v1")
    call_wrapped environment "could not update manager scheme: "
        (add_to_scheme "monitoring/v1alpha1")

  -- ctrlConfig.Apply and those behind it
  unfoldable pub apply_all_options : Effect Error (Calls C) (Unit {0})
  apply_all_options = do
    note (apply_options "rsyslogRelp")
    note (apply_options "controller")
    note (apply_options "lifecycle")
    note (apply_options "heartbeat")

  -- from the controllers to the start
  unfoldable pub add_and_start : Effect Error (Calls C) (Unit {0})
  add_and_start = do
    call_formatted environment "could not add controllers to manager: " add_controllers
    call_formatted environment "could not add the mutating webhook to manager: "
        (add_webhooks false)
    call_wrapped environment "could not add readycheck for informers: "
        (add_readyz_check "informer-sync")
    call_wrapped environment "could not add health check to manager: " (add_healthz_check "ping")
    call_wrapped environment "could not add ready check for webhook server to manager: "
        (add_readyz_check "webhook-server")
    call_formatted environment "error running manager: " start

  -- Options.run
  unfoldable pub run : Effect Error (Calls C) (Unit {0})
  unfolding add_to_schemes apply_all_options add_and_start
  run = do
    note (apply_client_connection 100 130)
    call_formatted environment "could not instantiate controller-manager: "
        (new_uncached_manager ("Secret" ∷ "ConfigMap" ∷ []))
    add_to_schemes
    apply_all_options
    add_and_start

  -- RunE of the command
  unfoldable pub run_controller : Effect Error (Calls C) (Unit {0})
  unfolding run
  run_controller = do call environment complete_options; call environment validate_heartbeat; run
