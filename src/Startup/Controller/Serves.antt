-- ===== src/Startup/Controller/Serves.antt =====
-- What the extension has done when its manager is started, and how a start fails.
use gardener_extension_shoot.Common.{[], ◌∷◌, ◌++◌, false, refl}
use gardener_extension_shoot.Startup.{
  complete_options, apply_client_connection, validate_heartbeat, new_uncached_manager,
  add_to_scheme, apply_options, add_controllers, add_webhooks, add_readyz_check, add_healthz_check,
  start, Calls, Environment, note,
}
use gardener_extension_shoot.Startup.Laws.{
  Follows, Progress, >>-Follows, note-Follows, call_wrapped-Follows, call_formatted-Follows,
  call->>-Follows, call_wrapped->>-Follows, call_formatted->>-Follows, note->>-Follows,
}
use gardener_extension_shoot.Startup.Controller.{
  add_to_schemes, apply_all_options, add_and_start, run, run_controller,
}

module _ {C : Type 0} (environment : Environment C) where
  abbrev pub scheme_calls : Calls C
  scheme_calls =
      add_to_scheme "extensions"
      ∷ add_to_scheme "rsyslog"
      ∷ add_to_scheme "monitoring/v1"
      ∷ add_to_scheme "monitoring/v1alpha1"
      ∷ []

  abbrev pub option_calls : Calls C
  option_calls =
      apply_options "rsyslogRelp"
      ∷ apply_options "controller"
      ∷ apply_options "lifecycle"
      ∷ apply_options "heartbeat"
      ∷ []

  abbrev pub serving_calls : Calls C
  serving_calls =
      add_controllers
      ∷ add_webhooks false
      ∷ add_readyz_check "informer-sync"
      ∷ add_healthz_check "ping"
      ∷ add_readyz_check "webhook-server"
      ∷ start
      ∷ []

  -- All calls of a start that succeeds.
  abbrev pub controller_calls : Calls C
  controller_calls =
      complete_options
      ∷ validate_heartbeat
      ∷ apply_client_connection 100 130
      ∷ new_uncached_manager ("Secret" ∷ "ConfigMap" ∷ [])
      ∷ (scheme_calls ++ (option_calls ++ serving_calls))

  add_to_schemes-Follows : Follows environment (add_to_schemes environment) scheme_calls tt
  unfolding add_to_schemes
  add_to_schemes-Follows =
      call_formatted->>-Follows environment _ _ tt
        (call_formatted->>-Follows environment _ _ tt
          (call_wrapped->>-Follows environment _ _ tt
            (call_wrapped-Follows environment _ (add_to_scheme "monitoring/v1alpha1"))
            "could not update manager scheme: " (add_to_scheme "monitoring/v1"))
          "could not update manager scheme: " (add_to_scheme "rsyslog"))
        "could not update manager scheme: " (add_to_scheme "extensions")

  apply_all_options-Follows : Follows environment (apply_all_options environment) option_calls tt
  unfolding apply_all_options
  apply_all_options-Follows =
      note->>-Follows environment _ _ tt
        (note->>-Follows environment _ _ tt
          (note->>-Follows environment (note (apply_options "heartbeat")) _ tt
            (note-Follows environment (apply_options "heartbeat") refl) (apply_options "lifecycle")
            refl)
          (apply_options "controller") refl)
        (apply_options "rsyslogRelp") refl

  add_and_start-Follows : Follows environment (add_and_start environment) serving_calls tt
  unfolding add_and_start
  add_and_start-Follows =
      call_formatted->>-Follows environment _ _ tt
        (call_formatted->>-Follows environment _ _ tt
          (call_wrapped->>-Follows environment _ _ tt
            (call_wrapped->>-Follows environment _ _ tt
              (call_wrapped->>-Follows environment _ _ tt
                (call_formatted-Follows environment _ start)
                "could not add ready check for webhook server to manager: "
                (add_readyz_check "webhook-server"))
              "could not add health check to manager: " (add_healthz_check "ping"))
            "could not add readycheck for informers: " (add_readyz_check "informer-sync"))
          "could not add the mutating webhook to manager: " (add_webhooks false))
        "could not add controllers to manager: " add_controllers

  run_controller-Follows : Follows environment (run_controller environment) controller_calls tt
  unfolding run_controller run
  run_controller-Follows =
      call->>-Follows environment _ _ tt
        (call->>-Follows environment (run environment) _ tt
          (note->>-Follows environment _ _ tt
            (call_formatted->>-Follows environment _ _ tt
              (>>-Follows environment (add_to_schemes environment) _ scheme_calls _ tt
                add_to_schemes-Follows
                (>>-Follows environment (apply_all_options environment) (add_and_start environment)
                  option_calls serving_calls tt apply_all_options-Follows add_and_start-Follows))
              "could not instantiate controller-manager: "
              (new_uncached_manager ("Secret" ∷ "ConfigMap" ∷ [])))
            (apply_client_connection 100 130) refl)
          validate_heartbeat)
        complete_options

  -- The start of the extension makes the calls of controller_calls in their order. It returns an error
  -- if one of them fails, which is then the last that it makes; otherwise it makes all of them, and the
  -- manager is started behind all others. It does not panic.
  pub run_controller-Progress :
      Progress environment controller_calls tt [] (run_controller environment [])
  run_controller-Progress = run_controller-Follows []
