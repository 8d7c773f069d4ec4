-- ===== src/V1alpha1.antt =====
-- pkg/apis/rsyslog/v1alpha1: the versioned types, their defaults, and the conversions from and to the
-- internal types. A conversion writes into `out`, whose TypeMeta it leaves. What is converted by a
-- cast of a pointer or slice to a type of the same layout is converted field by field.
pub mod Laws
use gardener_extension_shoot.Common.{String, List, map, Option, none, some, Bool, true}
use gardener_extension_shoot.Common.Int.{ℤ}
use gardener_extension_shoot.Api.{TypeMeta}
use gardener_extension_shoot.Api

pub record Tls : Type 0 where
  pub enabled : Bool
  pub secret_reference_name : Option String
  pub permitted_peer : List String
  pub auth_mode : Option String
  pub tls_lib : Option String

pub record MessageContent : Type 0 where
  pub regex : Option String
  pub exclude : Option String

pub record LoggingRule : Type 0 where
  pub program_names : List String
  pub severity : Option ℤ
  pub message_content : Option MessageContent

pub record AuditConfig : Type 0 where
  pub enabled : Bool
  pub config_map_reference_name : Option String

pub record RsyslogRelpConfig : Type 0 where
  pub type_meta : TypeMeta
  pub target : String
  pub port : ℤ
  pub logging_rules : List LoggingRule
  pub tls : Option Tls
  pub rebind_interval : Option ℤ
  pub timeout : Option ℤ
  pub resume_retry_count : Option ℤ
  pub report_suspension_continuation : Option Bool
  pub audit_config : Option AuditConfig

pub record Auditd : Type 0 where
  pub type_meta : TypeMeta
  pub audit_rules : String

-- a pointer that is cast
abbrev pub cast : {A B : Type 0} → (A → B) → Option A → Option B
cast f none = none
cast f (some a) = some (f a)

unfoldable pub set_defaults : RsyslogRelpConfig → RsyslogRelpConfig
set_defaults obj = record obj {
  audit_config = elim obj.audit_config [
    | none ↦ some (record { enabled = true; config_map_reference_name = none })
    | some config ↦ some config
  ];
}

-- from the versioned types
unfoldable pub audit_config_to_internal : AuditConfig → Api.AuditConfig
audit_config_to_internal in_config = record {
  enabled = in_config.enabled;
  config_map_reference_name = in_config.config_map_reference_name;
}

unfoldable pub auditd_to_internal : Auditd → Api.Auditd → Api.Auditd
auditd_to_internal in_auditd out = record out { audit_rules = in_auditd.audit_rules }

unfoldable pub message_content_to_internal : MessageContent → Api.MessageContent
message_content_to_internal content = record { regex = content.regex; exclude = content.exclude }

unfoldable pub logging_rule_to_internal : LoggingRule → Api.LoggingRule
unfolding message_content_to_internal
logging_rule_to_internal rule = record {
  program_names = rule.program_names;
  severity = rule.severity;
  message_content = cast message_content_to_internal rule.message_content;
}

unfoldable pub tls_to_internal : Tls → Api.Tls
tls_to_internal tls = record {
  enabled = tls.enabled;
  secret_reference_name = tls.secret_reference_name;
  permitted_peer = tls.permitted_peer;
  auth_mode = tls.auth_mode;
  tls_lib = tls.tls_lib;
}

unfoldable pub config_to_internal :
    RsyslogRelpConfig → Api.RsyslogRelpConfig → Api.RsyslogRelpConfig
unfolding logging_rule_to_internal tls_to_internal audit_config_to_internal
config_to_internal config out = record out {
  target = config.target;
  port = config.port;
  logging_rules = map logging_rule_to_internal config.logging_rules;
  tls = cast tls_to_internal config.tls;
  rebind_interval = config.rebind_interval;
  timeout = config.timeout;
  resume_retry_count = config.resume_retry_count;
  report_suspension_continuation = config.report_suspension_continuation;
  audit_config = cast audit_config_to_internal config.audit_config;
}

-- to the versioned types
unfoldable pub audit_config_to_v1alpha1 : Api.AuditConfig → AuditConfig
audit_config_to_v1alpha1 in_config = record {
  enabled = in_config.enabled;
  config_map_reference_name = in_config.config_map_reference_name;
}

unfoldable pub auditd_to_v1alpha1 : Api.Auditd → Auditd → Auditd
auditd_to_v1alpha1 in_auditd out = record out { audit_rules = in_auditd.audit_rules }

unfoldable pub message_content_to_v1alpha1 : Api.MessageContent → MessageContent
message_content_to_v1alpha1 content = record { regex = content.regex; exclude = content.exclude }

unfoldable pub logging_rule_to_v1alpha1 : Api.LoggingRule → LoggingRule
unfolding message_content_to_v1alpha1
logging_rule_to_v1alpha1 rule = record {
  program_names = rule.program_names;
  severity = rule.severity;
  message_content = cast message_content_to_v1alpha1 rule.message_content;
}

unfoldable pub tls_to_v1alpha1 : Api.Tls → Tls
tls_to_v1alpha1 tls = record {
  enabled = tls.enabled;
  secret_reference_name = tls.secret_reference_name;
  permitted_peer = tls.permitted_peer;
  auth_mode = tls.auth_mode;
  tls_lib = tls.tls_lib;
}

unfoldable pub config_to_v1alpha1 : Api.RsyslogRelpConfig → RsyslogRelpConfig → RsyslogRelpConfig
unfolding logging_rule_to_v1alpha1 tls_to_v1alpha1 audit_config_to_v1alpha1
config_to_v1alpha1 config out = record out {
  target = config.target;
  port = config.port;
  tls = cast tls_to_v1alpha1 config.tls;
  logging_rules = map logging_rule_to_v1alpha1 config.logging_rules;
  rebind_interval = config.rebind_interval;
  timeout = config.timeout;
  resume_retry_count = config.resume_retry_count;
  report_suspension_continuation = config.report_suspension_continuation;
  audit_config = cast audit_config_to_v1alpha1 config.audit_config;
}
