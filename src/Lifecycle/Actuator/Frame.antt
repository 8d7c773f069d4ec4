-- ===== src/Lifecycle/Actuator/Frame.antt =====
-- What the actuator's operations leave as it is: the objects and managed resources that are not the
-- extension's own, after any sequence of operations.
use gardener_extension_shoot.Common.{String, Map, Option}
use gardener_extension_shoot.Common.Effect.{Effect, ◌>>=◌, ◌>>◌, lift}
use gardener_extension_shoot.Common.Effect.Laws.{Keeps, >>=-Keeps, >>-Keeps}
use gardener_extension_shoot.Api.{RsyslogRelpConfig, AuditConfig}
use gardener_extension_shoot.Gardener.{Error}
use gardener_extension_shoot.Lifecycle.Monitoring.{
  deploy_monitoring_config, delete_monitoring_config, patch_dashboards, patch_rules, patch_scraping,
  alerting_rules, empty_config_map_dashboards, empty_prometheus_rule, empty_scrape_config,
  set_dashboards, set_rules, set_scrape_config,
}
use gardener_extension_shoot.Lifecycle.Monitoring.Laws.{deploy-Keeps, delete-Keeps}
use gardener_extension_shoot.Lifecycle.Actuator.{
  ClusterShoot, Seed, wrap_errors, raw_config, populated, get_cluster, clean_up,
  decode_provider_config, reconcile, clean_rsyslog_relp_configuration, delete, force_delete,
  restore, migrate,
}
use gardener_extension_shoot.Lifecycle.Actuator.Clean.{
  IsSeed, SameResources, SameResources-IsPreorder, Cleans, Beside, Beside-IsPreorder, clean-Keeps,
}

module _ {S : Type 0} (seed : Seed S) (resource : S → String → String → Option (Map String)) where
  module _ (is_seed : IsSeed seed resource) (namespace : String) where
    Beside-of_Cleans :
        (s t : S) → Cleans seed resource namespace s t → Beside seed resource namespace s t
    Beside-of_Cleans s t h = (λ ref other. h.0 ref, h.1)

    deploy-Keeps_resources :
        (audit_config : Option AuditConfig)
        → Keeps
            (SameResources seed resource)
            (deploy_monitoring_config seed.client seed.dashboard_config namespace audit_config)
    unfolding deploy_monitoring_config
    deploy-Keeps_resources audit_config =
        let first = patch_dashboards seed.client seed.dashboard_config namespace in
        let second = patch_rules seed.client seed.dashboard_config namespace audit_config in
        let third = patch_scraping seed.client seed.dashboard_config namespace in
        >>-Keeps (SameResources seed resource) (SameResources-IsPreorder seed resource) first
          (second >> third)
          (is_seed.patches (empty_config_map_dashboards seed.client seed.dashboard_config namespace)
            (set_dashboards seed.client seed.dashboard_config))
          (>>-Keeps (SameResources seed resource) (SameResources-IsPreorder seed resource) second
            third
            (is_seed.patches (empty_prometheus_rule seed.client seed.dashboard_config namespace)
              (set_rules seed.client seed.dashboard_config (alerting_rules audit_config)))
            (is_seed.patches (empty_scrape_config seed.client seed.dashboard_config namespace)
              (set_scrape_config seed.client seed.dashboard_config)))

    clean_up-Keeps :
        (shoot : ClusterShoot)
        → Keeps (Beside seed resource namespace) (clean_up seed namespace shoot)
    unfolding clean_up delete_monitoring_config
    clean_up-Keeps shoot =
        >>-Keeps (Beside seed resource namespace) (Beside-IsPreorder seed resource namespace)
          (wrap_errors "failed cleaning up monitoring configuration: "
            (delete_monitoring_config seed.client seed.dashboard_config namespace))
          (clean_rsyslog_relp_configuration seed shoot namespace)
          (λ s. (
            delete-Keeps seed.client is_seed.client seed.dashboard_config namespace s,
            λ n m other. is_seed.deletes _ s n m,
          ))
          (λ s. Beside-of_Cleans s _ (clean-Keeps seed resource is_seed namespace shoot s))

    reconcile-Keeps :
        (provider_config : Option String)
        → Keeps
            (Beside seed resource namespace)
            (reconcile seed (record { namespace = namespace; provider_config = provider_config }))
    unfolding reconcile
    reconcile-Keeps provider_config =
        let order = Beside-IsPreorder seed resource namespace in
        let next : RsyslogRelpConfig → Effect Error S (Unit {0}) = λ config.
          deploy_monitoring_config seed.client seed.dashboard_config namespace
            config.audit_config in
        >>=-Keeps (Beside seed resource namespace) order (lift (raw_config seed provider_config))
          (λ raw. lift (decode_provider_config seed raw) >>= next) order.same
          λ raw.
            >>=-Keeps (Beside seed resource namespace) order
              (lift (decode_provider_config seed raw)) next order.same
              λ config s. (
                deploy-Keeps seed.client is_seed.client seed.dashboard_config namespace
                    config.audit_config s,
                λ n m other. deploy-Keeps_resources config.audit_config s n m,
              )

    delete-Keeps-Beside :
        (provider_config : Option String)
        → Keeps
            (Beside seed resource namespace)
            (delete seed (record { namespace = namespace; provider_config = provider_config }))
    unfolding delete
    delete-Keeps-Beside provider_config =
        let order = Beside-IsPreorder seed resource namespace in
        >>=-Keeps (Beside seed resource namespace) order (get_cluster seed namespace)
          (λ cluster. lift (populated seed cluster) >>= clean_up seed namespace) order.same
          λ cluster.
            >>=-Keeps (Beside seed resource namespace) order (lift (populated seed cluster))
              (clean_up seed namespace) order.same clean_up-Keeps

  -- A call of the actuator for an extension of a namespace, and the state that it leaves, whether it
  -- returns an error or not.
  pub data Step (namespace : String) (s : S) : S → Type 0 where
    reconciles :
        (config : Option String)
        → Step namespace s
            (reconcile seed (record { namespace = namespace; provider_config = config }) s).1
    deletes :
        (config : Option String)
        → Step namespace s
            (delete seed (record { namespace = namespace; provider_config = config }) s).1
    force_deletes :
        (config : Option String)
        → Step namespace s
            (force_delete seed (record { namespace = namespace; provider_config = config }) s).1
    restores :
        (config : Option String)
        → Step namespace s
            (restore seed (record { namespace = namespace; provider_config = config }) s).1
    migrates :
        (config : Option String)
        → Step namespace s
            (migrate seed (record { namespace = namespace; provider_config = config }) s).1

  -- The states after any number of calls.
  pub data Reach (namespace : String) (s : S) : S → Type 0 where
    here : Reach namespace s s
    next : {t u : S} → Reach namespace s t → Step namespace t u → Reach namespace s u

  module _ (is_seed : (IsSeed seed resource)) (namespace : String) where
    Step-Beside : {s t : S} → Step namespace s t → Beside seed resource namespace s t
    unfolding restore force_delete migrate
    Step-Beside {s = s} (reconciles config) = reconcile-Keeps is_seed namespace config s
    Step-Beside {s = s} (deletes config) = delete-Keeps-Beside is_seed namespace config s
    Step-Beside {s = s} (force_deletes config) = (Beside-IsPreorder seed resource namespace).same s
    Step-Beside {s = s} (restores config) = reconcile-Keeps is_seed namespace config s
    Step-Beside {s = s} (migrates config) = (Beside-IsPreorder seed resource namespace).same s

    -- After any sequence of Reconcile, Delete, ForceDelete, Restore and Migrate for a namespace, with
    -- any configurations, and whatever each of them returns, every object but the three of the
    -- monitoring and every managed resource but the cleaner's is as it was before. The functions of
    -- Gardener that write objects must do what IsSeed says.
    pub Reach-Beside : {s t : S} → Reach namespace s t → Beside seed resource namespace s t
    Reach-Beside {s = s} here = (Beside-IsPreorder seed resource namespace).same s
    Reach-Beside (next reached step) =
        (Beside-IsPreorder seed resource namespace).after _ _ _ (Reach-Beside reached)
          (Step-Beside step)
