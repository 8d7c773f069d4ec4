-- ===== src/Tests/V1alpha1.antt =====
-- The versioned types.
use gardener_extension_shoot.Common.{[], ◌∷◌, none, some, false, ◌≡◌}
use gardener_extension_shoot.Common.Int.{pos}
use gardener_extension_shoot.Osc.Audit.{get_audit_files}
use gardener_extension_shoot.Osc.Ensurer.{audit_enabled}
use gardener_extension_shoot.Lifecycle.Monitoring.{alerting_rules}
use gardener_extension_shoot.V1alpha1.{
  RsyslogRelpConfig, set_defaults, config_to_internal, config_to_v1alpha1,
}
use gardener_extension_shoot.V1alpha1.Laws.{
  config_to_v1alpha1-to_internal, config_to_internal-to_v1alpha1, set_defaults-deploys,
}
use gardener_extension_shoot.Tests.Data.{config}
use gardener_extension_shoot.Tests.Rsyslog.{library, cluster}
use gardener_extension_shoot.Tests.Audit.{audit}

abbrev pub versioned : RsyslogRelpConfig
versioned = record {
  type_meta = record { kind = "RsyslogRelpConfig"; api_version = "v1alpha1" };
  target = "relp.example";
  port = pos 80;
  logging_rules =
      record { program_names = "kubelet" ∷ []; severity = some (pos 1); message_content = none }
      ∷ [];
  tls = none;
  rebind_interval = none;
  timeout = some (pos 90);
  resume_retry_count = none;
  report_suspension_continuation = some false;
  audit_config = none;
}

config_to_v1alpha1-to_internal_example :
    config_to_v1alpha1 (config_to_internal versioned config) versioned ≡ versioned
config_to_v1alpha1-to_internal_example = config_to_v1alpha1-to_internal versioned versioned config

config_to_internal-to_v1alpha1_example :
    config_to_internal (config_to_v1alpha1 config versioned) config ≡ config
config_to_internal-to_v1alpha1_example = config_to_internal-to_v1alpha1 config config versioned

set_defaults-deploys_example :
    let given = config_to_internal versioned config in
    let defaulted = config_to_internal (set_defaults versioned) config in
    (alerting_rules defaulted.audit_config ≡ alerting_rules given.audit_config)
    × (audit_enabled defaulted.audit_config ≡ audit_enabled given.audit_config)
    × (get_audit_files library audit "shoot--foo--bar" defaulted cluster
        ≡ get_audit_files library audit "shoot--foo--bar" given cluster)
    × (set_defaults (set_defaults versioned) ≡ set_defaults versioned)
set_defaults-deploys_example =
    set_defaults-deploys library audit "shoot--foo--bar" cluster versioned config
