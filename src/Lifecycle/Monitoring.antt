-- ===== src/Lifecycle/Monitoring.antt =====
-- monitoring.go: the ConfigMap with the dashboard, the PrometheusRule and the ScrapeConfig.
pub mod Alerts
pub mod Laws
use gardener_extension_shoot.Common.{
  String, List, [], ◌∷◌, ◌++◌, Map, Option, none, some, Bool, true, false, concat, if◌then◌else◌,
}
use gardener_extension_shoot.Common.Effect.{Effect, ◌>>◌}
use gardener_extension_shoot.Api.{AuditConfig}
use gardener_extension_shoot.Gardener.{Error}
use gardener_extension_shoot.Lifecycle.Kube.{
  Rule, RuleGroup, SecretKeySelector, KubernetesSdConfig, RelabelConfig, ScrapeConfigSpec,
  config_map, prometheus_rule, scrape_config, KubeObject, Client,
}

-- constants.ServiceName
abbrev pub service_name : String
service_name = "shoot-rsyslog-relp"

-- the Kubernetes service and port of the node exporter
abbrev pub node_exporter_service_name : String
node_exporter_service_name = "node-exporter"

abbrev pub port_name_metrics : String
port_name_metrics = "metrics"

-- the labels of every alert
abbrev alert_labels : Map String
alert_labels =
    ("service", "rsyslog-relp")
    ∷ ("severity", "warning")
    ∷ ("type", "shoot")
    ∷ ("visibility", "all")
    ∷ []

abbrev pub too_many_failures : Rule
too_many_failures = record {
  alert = "RsyslogTooManyRelpActionFailures";
  expr =
      "sum(rate(rsyslog_pstat_failed{origin=\"core.action\",name=\"rsyslg-relp\"}[5m])) / sum(rate(rsyslog_pstat_processed{origin=\"core.action\",name=\"rsyslog-relp\"}[5m])) > bool 0.02 == 1";
  duration = some "15m";
  labels = alert_labels;
  annotations =
      (
        "description",
        "The rsyslog relp cumulative failure rate in processing action events is greater than 2%.",
      )
      ∷ ("summary", "Rsyslog relp has too many failed attempts to process action events")
      ∷ [];
}

abbrev pub processing_rate_is_zero : Rule
processing_rate_is_zero = record {
  alert = "RsyslogRelpActionProcessingRateIsZero";
  expr = "rate(rsyslog_pstat_processed{origin=\"core.action\",name=\"rsyslog-relp\"}[5m]) == 0";
  duration = some "15m";
  labels = alert_labels;
  annotations =
      (
        "description",
        "The rsyslog relp action processing rate is 0 meaning that there is most likely something wrong with the rsyslog service.",
      )
      ∷ ("summary", "Rsyslog relp action processing rate is 0")
      ∷ [];
}

abbrev pub audit_rules_not_loaded : Rule
audit_rules_not_loaded = record {
  alert = "RsyslogRelpAuditRulesNotLoadedSuccessfully";
  expr = "absent(rsyslog_augenrules_load_success == 1)";
  duration = some "15m";
  labels = alert_labels;
  annotations =
      (
        "description",
        "The rsyslog augenrules load success is 0 meaning that there was an error when calling 'augenrules --load' on the Shoot nodes",
      )
      ∷ ("summary", "Rsyslog augenrules load success is 0")
      ∷ [];
}

-- `auditConfig == nil || auditConfig.Enabled`
abbrev audit_enabled : Option AuditConfig → Bool
audit_enabled none = true
audit_enabled (some config) = config.enabled

unfoldable pub alerting_rules : Option AuditConfig → List Rule
alerting_rules audit_config =
    (too_many_failures ∷ processing_rate_is_zero ∷ [])
    ++ (if audit_enabled audit_config then audit_rules_not_loaded ∷ [] else [])

abbrev shoot_access : SecretKeySelector
shoot_access = record { name = "shoot-access-prometheus-shoot"; key = "token" }

abbrev relabel : List String → String → String → String → Option String → RelabelConfig
relabel source_labels action regex target_label replacement = record {
  source_labels = source_labels;
  action = action;
  regex = regex;
  target_label = target_label;
  replacement = replacement;
}

abbrev pub relabel_configs : List RelabelConfig
relabel_configs =
    relabel [] "replace" "" "job" (some "rsyslog-metrics")
    ∷ relabel [] "" "" "type" (some "shoot")
    ∷ relabel ("__meta_kubernetes_service_name" ∷ "__meta_kubernetes_endpoint_port_name" ∷ [])
        "keep" (concat (node_exporter_service_name ∷ ";" ∷ port_name_metrics ∷ [])) "" none
    ∷ relabel [] "labelmap" "__meta_kubernetes_service_label_(.+)" "" none
    ∷ relabel ("__meta_kubernetes_pod_name" ∷ []) "" "" "pod" none
    ∷ relabel ("__meta_kubernetes_pod_node_name" ∷ []) "" "" "node" none
    ∷ relabel [] "" "" "__address__" (some "kube-apiserver:443")
    ∷ relabel ("__meta_kubernetes_pod_name" ∷ "__meta_kubernetes_pod_container_port_number" ∷ []) ""
        "(.+);(.+)" "__metrics_path__"
        (some "/api/v1/namespaces/kube-system/pods/${1}:${2}/proxy/metrics")
    ∷ []

module _ {S : Type 0} (client : Client S) (dashboard_config : String) where
  abbrev pub sd_config : KubernetesSdConfig
  sd_config = record {
    api_server = some "https://kube-apiserver";
    role = "Endpoints";
    namespaces = client.namespace_system ∷ [];
    credentials = shoot_access;
    insecure_skip_verify = some true;
    follow_redirects = some true;
  }

  unfoldable pub scrape_config_spec : ScrapeConfigSpec
  scrape_config_spec = record {
    honor_labels = some false;
    scrape_timeout = some "30s";
    scheme = some client.scheme_https;
    insecure_skip_verify = some true;
    credentials = shoot_access;
    kubernetes_sd_configs = sd_config ∷ [];
    relabel_configs = relabel_configs;
    metric_relabel_configs = client.standard_metric_relabel_config "rsyslog_.+";
  }

  abbrev pub empty_config_map_dashboards : String → KubeObject
  empty_config_map_dashboards namespace = record {
    namespace = namespace;
    name = concat (service_name ∷ "-dashboards" ∷ []);
    labels = [];
    content = config_map [];
  }

  abbrev pub empty_prometheus_rule : String → KubeObject
  empty_prometheus_rule namespace = record {
    namespace = namespace;
    name = client.config_object_name service_name "shoot";
    labels = client.config_object_labels "shoot";
    content = prometheus_rule [];
  }

  abbrev pub empty_scrape_config : String → KubeObject
  empty_scrape_config namespace = record {
    namespace = namespace;
    name = client.config_object_name service_name "shoot";
    labels = client.config_object_labels "shoot";
    content = scrape_config none;
  }

  -- the functions that change the three objects
  abbrev pub set_dashboards : KubeObject → KubeObject
  set_dashboards o = record o {
    labels =
        client.set_label (client.set_label o.labels "component" service_name)
          "dashboard.monitoring.gardener.cloud/shoot" "true";
    content = config_map (("rsyslog-relp-dashboard.json", dashboard_config) ∷ []);
  }

  abbrev pub set_rules : List Rule → KubeObject → KubeObject
  set_rules rules o = record o {
    labels =
        client.set_label (client.set_label o.labels "component" service_name) "prometheus" "shoot";
    content = prometheus_rule (record { name = "rsyslog-relp.rules"; rules = rules } ∷ []);
  }

  abbrev pub set_scrape_config : KubeObject → KubeObject
  set_scrape_config o = record o {
    labels =
        client.set_label (client.set_label o.labels "component" service_name) "prometheus" "shoot";
    content = scrape_config (some scrape_config_spec);
  }

  -- the three steps
  abbrev pub patch_dashboards : String → Effect Error S (Unit {0})
  patch_dashboards namespace = client.patch (empty_config_map_dashboards namespace) set_dashboards

  abbrev pub patch_rules : String → Option AuditConfig → Effect Error S (Unit {0})
  patch_rules namespace audit_config =
      client.patch (empty_prometheus_rule namespace) (set_rules (alerting_rules audit_config))

  abbrev pub patch_scraping : String → Effect Error S (Unit {0})
  patch_scraping namespace = client.patch (empty_scrape_config namespace) set_scrape_config

  unfoldable pub deploy_monitoring_config : String → Option AuditConfig → Effect Error S (Unit {0})
  unfolding alerting_rules
  deploy_monitoring_config namespace audit_config =
      patch_dashboards namespace >> (patch_rules namespace audit_config >> patch_scraping namespace)

  abbrev pub monitoring_objects : String → List KubeObject
  monitoring_objects namespace =
      empty_config_map_dashboards namespace
      ∷ empty_prometheus_rule namespace
      ∷ empty_scrape_config namespace
      ∷ []

  unfoldable pub delete_monitoring_config : String → Effect Error S (Unit {0})
  delete_monitoring_config namespace = client.delete_objects (monitoring_objects namespace)
