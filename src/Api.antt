-- ===== src/Api.antt =====
-- pkg/apis/rsyslog: the internal configuration types, and the constants of pkg/constants that the
-- other parts refer to. A pointer is an `Option`, a slice a list, a named string type a text.
use gardener_extension_shoot.Common.{String, Option, Bool, List}
use gardener_extension_shoot.Common.Int.{ℤ}

-- metav1.TypeMeta
pub record TypeMeta : Type 0 where
  pub kind : String
  pub api_version : String

abbrev pub AuthMode : Type 0
AuthMode = String

abbrev pub auth_mode_name : AuthMode
auth_mode_name = "name"

abbrev pub auth_mode_finger_print : AuthMode
auth_mode_finger_print = "fingerprint"

abbrev pub TlsLib : Type 0
TlsLib = String

abbrev pub tls_lib_open_ssl : String
tls_lib_open_ssl = "openssl"

abbrev pub tls_lib_gnu_tls : String
tls_lib_gnu_tls = "gnutls"

pub record Tls : Type 0 where
  pub enabled : Bool
  pub secret_reference_name : Option String
  pub permitted_peer : List String
  pub auth_mode : Option AuthMode
  pub tls_lib : Option TlsLib

pub record MessageContent : Type 0 where
  pub regex : Option String
  pub exclude : Option String

pub record LoggingRule : Type 0 where
  pub program_names : List String
  pub severity : Option ℤ
  pub message_content : Option MessageContent

pub record AuditConfig : Type 0 where
  pub enabled : Bool
  pub config_map_reference_name : Option String

pub record RsyslogRelpConfig : Type 0 where
  pub type_meta : TypeMeta
  pub target : String
  pub port : ℤ
  pub tls : Option Tls
  pub logging_rules : List LoggingRule
  pub rebind_interval : Option ℤ
  pub timeout : Option ℤ
  pub resume_retry_count : Option ℤ
  pub report_suspension_continuation : Option Bool
  pub audit_config : Option AuditConfig

pub record Auditd : Type 0 where
  pub type_meta : TypeMeta
  pub audit_rules : String

-- constants.ExtensionType
abbrev pub extension_type : String
extension_type = "shoot-rsyslog-relp"

-- constants.RsyslogCertifcateAuthorityKey
abbrev pub certificate_authority_key : String
certificate_authority_key = "ca"

-- constants.RsyslogClientCertificateKey
abbrev pub client_certificate_key : String
client_certificate_key = "crt"

-- constants.RsyslogPrivateKeyKey
abbrev pub private_key_key : String
private_key_key = "key"

-- constants.AuditdConfigMapDataKey
abbrev pub auditd_config_map_data_key : String
auditd_config_map_data_key = "auditd"
