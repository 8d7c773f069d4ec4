-- ===== src/Startup/Admission/Laws.antt =====
-- What the admission has done when it serves, and when its start fails.
use gardener_extension_shoot.Common.{
  [], ◌∷◌, ◌++◌, Option, none, some, Bool-cases, inl, inr, refl, if◌then◌else◌,
}
use gardener_extension_shoot.Common.Effect.{◌>>=◌, ◌>>◌}
use gardener_extension_shoot.Startup.{
  use_kubeconfig, complete_options, apply_client_connection, build_config, new_manager,
  install_scheme, new_cluster, add_cluster, add_webhooks, add_readyz_check, add_healthz_check,
  start, Calls, Environment, returns, call,
}
use gardener_extension_shoot.Startup.Laws.{
  Follows, >>=-Follows, >>-Follows, returns-Follows, note-Follows, call-Follows, call->>-Follows,
  call_wrapped->>-Follows, note->>-Follows,
}
use gardener_extension_shoot.Startup.Admission.{
  Source, is_set, use_garden_kubeconfig, source_of_environment, add_source_cluster, has_source,
  serve, run_manager, run_admission,
}

module _ {C : Type 0} (environment : Environment C) where
  -- The source cluster that the environment asks for.
  abbrev pub source : Source C
  source =
      if is_set environment "SOURCE_CLUSTER"
      then record {
        config = environment.built_config (environment.getenv "SOURCE_KUBECONFIG");
        cache_namespace = none;
      }
      else record { config = none; cache_namespace = some environment.server_namespace }

  -- the calls for a source cluster
  abbrev pub cluster_calls : Option C → Calls C
  cluster_calls none = []
  cluster_calls (some config) =
      new_cluster config environment.garden_namespace
      ∷ add_readyz_check "source-informer-sync"
      ∷ add_cluster
      ∷ []

  abbrev pub serving_calls : Option C → Calls C
  serving_calls config =
      add_webhooks (has_source environment config)
      ∷ add_readyz_check "informer-sync"
      ∷ add_healthz_check "ping"
      ∷ add_readyz_check "webhook-server"
      ∷ start
      ∷ []

  abbrev pub kubeconfig_calls : Calls C
  kubeconfig_calls =
      if is_set environment "GARDEN_KUBECONFIG"
      then use_kubeconfig (environment.getenv "GARDEN_KUBECONFIG") ∷ []
      else []

  abbrev pub source_calls : Calls C
  source_calls =
      if is_set environment "SOURCE_CLUSTER"
      then build_config (environment.getenv "SOURCE_KUBECONFIG") ∷ []
      else []

  -- All calls of a start that succeeds.
  abbrev pub admission_calls : Calls C
  admission_calls =
      kubeconfig_calls
      ++ complete_options
        ∷ apply_client_connection 100 130
        ∷ (source_calls
            ++ new_manager source.config source.cache_namespace
              ∷ install_scheme "core"
              ∷ install_scheme "rsyslog"
              ∷ (cluster_calls source.config ++ serving_calls source.config))

  use_garden_kubeconfig-Follows :
      Follows environment (use_garden_kubeconfig environment) kubeconfig_calls tt
  unfolding use_garden_kubeconfig
  use_garden_kubeconfig-Follows = elim (Bool-cases (is_set environment "GARDEN_KUBECONFIG")) [
    | inl set ↦ rw set (note-Follows environment (use_kubeconfig _) refl)
    | inr unset ↦ rw unset (returns-Follows environment tt)
  ]

  source_of_environment-Follows :
      Follows environment (source_of_environment environment) source_calls source
  unfolding source_of_environment
  source_of_environment-Follows = elim (Bool-cases (is_set environment "SOURCE_CLUSTER")) [
    | inl set ↦ rw set (
        >>-Follows environment (call environment (build_config _)) (returns _) (build_config _ ∷ [])
          [] _ (call-Follows environment (build_config _)) (returns-Follows environment _))
    | inr unset ↦ rw unset (returns-Follows environment _)
  ]

  add_source_cluster-Follows :
      (config : Option C)
      → Follows environment (add_source_cluster environment config) (cluster_calls config) tt
  unfolding add_source_cluster
  add_source_cluster-Follows none = returns-Follows environment tt
  add_source_cluster-Follows (some config) =
      call->>-Follows environment _ _ tt
        (call->>-Follows environment (call environment add_cluster) (add_cluster ∷ []) tt
          (call-Follows environment add_cluster) (add_readyz_check "source-informer-sync"))
        (new_cluster config environment.garden_namespace)

  serve-Follows :
      (config : Option C) → Follows environment (serve environment config) (serving_calls config) tt
  unfolding serve
  serve-Follows config =
      call->>-Follows environment _ _ tt
        (call_wrapped->>-Follows environment _ _ tt
          (call_wrapped->>-Follows environment _ _ tt
            (call_wrapped->>-Follows environment (call environment start) (start ∷ []) tt
              (call-Follows environment start) "could not add readycheck of webhook to manager: "
              (add_readyz_check "webhook-server"))
            "could not add healthcheck: " (add_healthz_check "ping"))
          "could not add readycheck for informers: " (add_readyz_check "informer-sync"))
        (add_webhooks (has_source environment config))

  run_manager-Follows :
      (s : Source C)
      → Follows environment
          (run_manager environment s)
          (new_manager s.config s.cache_namespace
            ∷ install_scheme "core"
            ∷ install_scheme "rsyslog"
            ∷ (cluster_calls s.config ++ serving_calls s.config))
          tt
  unfolding run_manager
  run_manager-Follows s =
      call_wrapped->>-Follows environment _ _ tt
        (note->>-Follows environment _ _ tt
          (note->>-Follows environment
            (add_source_cluster environment s.config >> serve environment s.config) _ tt
            (>>-Follows environment (add_source_cluster environment s.config)
              (serve environment s.config) (cluster_calls s.config) (serving_calls s.config) tt
              (add_source_cluster-Follows s.config) (serve-Follows s.config))
            (install_scheme "rsyslog") refl)
          (install_scheme "core") refl)
        "could not instantiate manager: " (new_manager s.config s.cache_namespace)

  pub run_admission-Follows : Follows environment (run_admission environment) admission_calls tt
  unfolding run_admission
  run_admission-Follows =
      >>-Follows environment (use_garden_kubeconfig environment) _ kubeconfig_calls _ tt
        use_garden_kubeconfig-Follows
        (call_wrapped->>-Follows environment _ _ tt
          (note->>-Follows environment
            (source_of_environment environment >>= run_manager environment) _ tt
            (>>=-Follows environment (source_of_environment environment) (run_manager environment)
              source_calls _ source tt source_of_environment-Follows (run_manager-Follows source))
            (apply_client_connection 100 130) refl)
          "error completing options: " complete_options)
