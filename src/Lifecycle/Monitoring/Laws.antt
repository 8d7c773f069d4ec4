-- ===== src/Lifecycle/Monitoring/Laws.antt =====
-- What the three objects are after they have been deployed or deleted, and that no other object is
-- touched.
use gardener_extension_shoot.Common.{
  String, List, [], ◌∷◌, Map, lookup, Option, some, ◌≡◌, ◌≢◌, inl, inr, refl, arith, ◌∙◌, sym,
  subst, eq_iff,
}
use gardener_extension_shoot.Common.Outcome.{ok}
use gardener_extension_shoot.Common.Effect.{Effect, ◌>>◌}
use gardener_extension_shoot.Common.Effect.Laws.{IsPreorder, Keeps, >>-Keeps, >>-ok}
use gardener_extension_shoot.Api.{AuditConfig}
use gardener_extension_shoot.Gardener.{Error}
use gardener_extension_shoot.Lifecycle.Kube.{
  Rule, Content, config_map, prometheus_rule, scrape_config, KubeObject, ObjectRef, ref_of, Client,
  IsClient, IsAmong, or_initial,
}
use gardener_extension_shoot.Lifecycle.Monitoring.{
  service_name, alerting_rules, scrape_config_spec, empty_config_map_dashboards,
  empty_prometheus_rule, empty_scrape_config, set_dashboards, set_rules, set_scrape_config,
  patch_dashboards, patch_rules, patch_scraping, deploy_monitoring_config, monitoring_objects,
  delete_monitoring_config,
}
use gardener_extension_shoot.Lifecycle.Monitoring.Alerts.{HasAlerts, alerting_rules-HasAlerts}

labels_differ :
    (◌≢◌ {A = String} "dashboard.monitoring.gardener.cloud/shoot" "component")
    × (◌≢◌ {A = String} "prometheus" "component")
labels_differ = ground (
  arith,
  eq_iff "dashboard.monitoring.gardener.cloud/shoot" "component",
  eq_iff "prometheus" "component",
)

module _ {S : Type 0} (client : Client S) where
  -- An object with a content and two labels is stored under a name.
  pub record Stored (s : S) (ref : ObjectRef) (content : Content) (label value : String)
      : Type 0 where
    pub stored : KubeObject
    pub found : client.object s ref ≡ some stored
    pub same_content : stored.content ≡ content
    pub component : lookup "component" stored.labels ≡ some service_name
    pub labelled : lookup label stored.labels ≡ some value

  -- the three objects, with the alerts that the audit configuration asks for
  pub record IsDeployed (dashboard_config namespace : String) (audit_config : Option AuditConfig)
      (s : S) : Type 0 where
    pub dashboards :
        Stored s
          (ref_of (empty_config_map_dashboards client dashboard_config namespace))
          (config_map (("rsyslog-relp-dashboard.json", dashboard_config) ∷ []))
          "dashboard.monitoring.gardener.cloud/shoot"
          "true"
    pub alerts : List Rule
    pub has_alerts : HasAlerts audit_config alerts
    pub rules :
        Stored s
          (ref_of (empty_prometheus_rule client dashboard_config namespace))
          (prometheus_rule (record { name = "rsyslog-relp.rules"; rules = alerts } ∷ []))
          "prometheus"
          "shoot"
    pub scraping :
        Stored s
          (ref_of (empty_scrape_config client dashboard_config namespace))
          (scrape_config (some (scrape_config_spec client dashboard_config)))
          "prometheus"
          "shoot"

  -- The states agree on the objects that are not among some.
  abbrev pub AgreeBeside : List KubeObject → S → S → Type 0
  AgreeBeside objects s t =
      (ref : ObjectRef) → (IsAmong ref objects → ⊥) → client.object t ref ≡ client.object s ref

  pub AgreeBeside-IsPreorder : (objects : List KubeObject) → IsPreorder (AgreeBeside objects)
  AgreeBeside-IsPreorder objects = record {
    same = λ s ref other. refl;
    after = λ s t u h k ref other. k ref other ∙ h ref other;
  }

  module _ (is_client : IsClient client) where
    patch-Keeps :
        (objects : List KubeObject) (o : KubeObject) (f : KubeObject → KubeObject)
        → IsAmong (ref_of o) objects
        → Keeps (AgreeBeside objects) (client.patch o f)
    patch-Keeps objects o f among s ref other =
        is_client.patch_frame o f s ref
          (λ same. other (subst (λ r. IsAmong r objects) (sym same) among))

    -- a label that is set last, and one before it
    labels_set :
        (labels : Map String) (key value : String)
        → key ≢ "component"
        → (lookup "component"
              (client.set_label (client.set_label labels "component" service_name) key value)
            ≡ some service_name)
          × (lookup key
                (client.set_label (client.set_label labels "component" service_name) key value)
              ≡ some value)
    labels_set labels key value differ = ground (
      arith,
      is_client.labelled (client.set_label labels "component" service_name) key value "component",
      is_client.labelled (client.set_label labels "component" service_name) key value key,
      is_client.labelled labels "component" service_name "component",
      eq_iff key "component",
      eq_iff key key,
    )

    patched-Stored :
        (o : KubeObject) (f : KubeObject → KubeObject) (content : Content) (key value : String)
        (s : S)
        → key ≢ "component"
        → ((found : KubeObject)
            → f found ≡ record found {
              labels =
                  client.set_label
                    (client.set_label found.labels "component" service_name)
                    key
                    value;
              content = content;
            })
        → (client.patch o f s).0 ≡ ok tt
        → Stored (client.patch o f s).1 (ref_of o) content key value
    patched-Stored o f content key value s differ sets passed =
        let found = or_initial o (client.object s (ref_of o)) in
        let (component, labelled) = labels_set found.labels key value differ in
        record {
          stored = f found;
          found = is_client.patched o f s passed;
          same_content = rw (sets found) refl;
          component = rw (sets found) component;
          labelled = rw (sets found) labelled;
        }

    Stored-of_eq :
        (s t : S) (ref : ObjectRef) {content : Content} {key value : String}
        → client.object t ref ≡ client.object s ref
        → Stored s ref content key value
        → Stored t ref content key value
    Stored-of_eq s t ref same h = record {
      stored = h.stored;
      found = same ∙ h.found;
      same_content = h.same_content;
      component = h.component;
      labelled = h.labelled;
    }

    module _ (dashboard_config namespace : String) where
      abbrev first_patch : Effect Error S (Unit {0})
      first_patch = patch_dashboards client dashboard_config namespace

      abbrev second_patch : Option AuditConfig → Effect Error S (Unit {0})
      second_patch = patch_rules client dashboard_config namespace

      abbrev third_patch : Effect Error S (Unit {0})
      third_patch = patch_scraping client dashboard_config namespace

      -- If deployMonitoringConfig returns no error, then the ConfigMap holds the dashboard, the
      -- PrometheusRule the two alerts on the relp action, that on the audit rules exactly if the audit
      -- configuration is absent or enabled, and no other, and the ScrapeConfig its specification, each with its two labels, whatever
      -- objects there were before. The client's operations must do what IsClient says.
      pub deploy-IsDeployed :
          (audit_config : Option AuditConfig) (s : S)
          → (deploy_monitoring_config client dashboard_config namespace audit_config s).0 ≡ ok tt
          → IsDeployed dashboard_config namespace audit_config
              (deploy_monitoring_config client dashboard_config namespace audit_config s).1
      unfolding deploy_monitoring_config
      deploy-IsDeployed audit_config s passed =
          let dashboards = empty_config_map_dashboards client dashboard_config namespace in
          let rules = empty_prometheus_rule client dashboard_config namespace in
          let scraping = empty_scrape_config client dashboard_config namespace in
          let s₁ = (first_patch s).1 in
          let s₂ = (second_patch audit_config s₁).1 in
          let (ok₁, rest, end₁) =
            >>-ok first_patch (second_patch audit_config >> third_patch) s passed in
          let (ok₂, ok₃, end₂) = >>-ok (second_patch audit_config) third_patch s₁ rest in
          let stored₁ =
            patched-Stored dashboards (set_dashboards client dashboard_config)
              (config_map (("rsyslog-relp-dashboard.json", dashboard_config) ∷ []))
              "dashboard.monitoring.gardener.cloud/shoot" "true" s labels_differ.0 (λ found. refl)
              ok₁ in
          let stored₂ =
            patched-Stored rules (set_rules client dashboard_config (alerting_rules audit_config))
              (prometheus_rule
                (record { name = "rsyslog-relp.rules"; rules = alerting_rules audit_config } ∷ []))
              "prometheus" "shoot" s₁ labels_differ.1 (λ found. refl) ok₂ in
          let stored₃ =
            patched-Stored scraping (set_scrape_config client dashboard_config)
              (scrape_config (some (scrape_config_spec client dashboard_config))) "prometheus"
              "shoot" s₂ labels_differ.1 (λ found. refl) ok₃ in
          rw (end₁ ∙ end₂) (record {
            dashboards =
                Stored-of_eq s₁ _ _
                  (is_client.patch_frame scraping _ s₂ _ (λ e. cc)
                    ∙ is_client.patch_frame rules _ s₁ _ (λ e. cc))
                  stored₁;
            alerts = alerting_rules audit_config;
            has_alerts = alerting_rules-HasAlerts audit_config;
            rules = Stored-of_eq s₂ _ _ (is_client.patch_frame scraping _ s₂ _ (λ e. cc)) stored₂;
            scraping = stored₃;
          })

      pub deploy-Keeps :
          (audit_config : Option AuditConfig)
          → Keeps
              (AgreeBeside (monitoring_objects client dashboard_config namespace))
              (deploy_monitoring_config client dashboard_config namespace audit_config)
      unfolding deploy_monitoring_config
      deploy-Keeps audit_config =
          let objects = monitoring_objects client dashboard_config namespace in
          let order = AgreeBeside-IsPreorder objects in
          >>-Keeps (AgreeBeside objects) order first_patch
            (second_patch audit_config >> third_patch)
            (patch-Keeps objects _ (set_dashboards client dashboard_config) (inl refl))
            (>>-Keeps (AgreeBeside objects) order (second_patch audit_config) third_patch
              (patch-Keeps objects (empty_prometheus_rule client dashboard_config namespace) _
                (inr (inl refl)))
              (patch-Keeps objects (empty_scrape_config client dashboard_config namespace) _
                (inr (inr (inl refl)))))

      pub delete-Keeps :
          Keeps
            (AgreeBeside (monitoring_objects client dashboard_config namespace))
            (delete_monitoring_config client dashboard_config namespace)
      unfolding delete_monitoring_config
      delete-Keeps s ref other = is_client.delete_frame _ s ref other
