-- ===== src/DeepCopy/Layout.antt =====
-- The structs of the configuration as they lie in memory, where a pointer is the number of a cell and
-- nil is `none`. The types of pkg/apis/rsyslog and of its package v1alpha1 have the same fields.
use gardener_extension_shoot.Common.{String, ℕ, List, [], Option, none, some, Bool, false, refl}
use gardener_extension_shoot.Common.Int.{ℤ, pos}
use gardener_extension_shoot.Common.Memory.{CellType}
use gardener_extension_shoot.Api.{TypeMeta}

pub record AuditConfigStruct : Type 0 where
  pub enabled : Bool
  pub config_map_reference_name : Option ℕ

pub record AuditdStruct : Type 0 where
  pub type_meta : TypeMeta
  pub audit_rules : String

pub record MessageContentStruct : Type 0 where
  pub regex : Option ℕ
  pub exclude : Option ℕ

pub record LoggingRuleStruct : Type 0 where
  pub program_names : Option ℕ
  pub severity : Option ℕ
  pub message_content : Option ℕ

pub record TlsStruct : Type 0 where
  pub enabled : Bool
  pub secret_reference_name : Option ℕ
  pub permitted_peer : Option ℕ
  pub auth_mode : Option ℕ
  pub tls_lib : Option ℕ

pub record RsyslogRelpConfigStruct : Type 0 where
  pub type_meta : TypeMeta
  pub target : String
  pub port : ℤ
  pub tls : Option ℕ
  pub logging_rules : Option ℕ
  pub rebind_interval : Option ℕ
  pub timeout : Option ℕ
  pub resume_retry_count : Option ℕ
  pub report_suspension_continuation : Option ℕ
  pub audit_config : Option ℕ

-- What a pointer or a slice can refer to.
pub data Cell : Type 0 where
  text : String → Cell
  number : ℤ → Cell
  flag : Bool → Cell
  texts : List String → Cell
  rules : List LoggingRuleStruct → Cell
  rule : LoggingRuleStruct → Cell
  message : MessageContentStruct → Cell
  tls : TlsStruct → Cell
  audit : AuditConfigStruct → Cell
  config : RsyslogRelpConfigStruct → Cell
  auditd : AuditdStruct → Cell

abbrev read_text : Cell → Option String
read_text (text s) = some s
read_text _ = none

abbrev read_number : Cell → Option ℤ
read_number (number n) = some n
read_number _ = none

abbrev read_flag : Cell → Option Bool
read_flag (flag b) = some b
read_flag _ = none

abbrev read_texts : Cell → Option (List String)
read_texts (texts ss) = some ss
read_texts _ = none

abbrev read_rules : Cell → Option (List LoggingRuleStruct)
read_rules (rules rs) = some rs
read_rules _ = none

abbrev read_rule : Cell → Option LoggingRuleStruct
read_rule (rule r) = some r
read_rule _ = none

abbrev read_message : Cell → Option MessageContentStruct
read_message (message m) = some m
read_message _ = none

abbrev read_tls : Cell → Option TlsStruct
read_tls (tls t) = some t
read_tls _ = none

abbrev read_audit : Cell → Option AuditConfigStruct
read_audit (audit a) = some a
read_audit _ = none

abbrev read_config : Cell → Option RsyslogRelpConfigStruct
read_config (config c) = some c
read_config _ = none

abbrev read_auditd : Cell → Option AuditdStruct
read_auditd (auditd a) = some a
read_auditd _ = none

abbrev pub text_cell : CellType Cell String
text_cell = record { zero_value = ""; wrap = text; read = read_text; reads = λ s. refl }

abbrev pub number_cell : CellType Cell ℤ
number_cell = record { zero_value = pos 0; wrap = number; read = read_number; reads = λ n. refl }

abbrev pub flag_cell : CellType Cell Bool
flag_cell = record { zero_value = false; wrap = flag; read = read_flag; reads = λ b. refl }

abbrev pub texts_cell : CellType Cell (List String)
texts_cell = record { zero_value = []; wrap = texts; read = read_texts; reads = λ ss. refl }

abbrev pub rules_cell : CellType Cell (List LoggingRuleStruct)
rules_cell = record { zero_value = []; wrap = rules; read = read_rules; reads = λ rs. refl }

abbrev pub zero_rule : LoggingRuleStruct
zero_rule = record { program_names = none; severity = none; message_content = none }

abbrev pub rule_cell : CellType Cell LoggingRuleStruct
rule_cell = record { zero_value = zero_rule; wrap = rule; read = read_rule; reads = λ r. refl }

abbrev pub message_cell : CellType Cell MessageContentStruct
message_cell = record {
  zero_value = record { regex = none; exclude = none };
  wrap = message;
  read = read_message;
  reads = λ m. refl;
}

abbrev pub tls_cell : CellType Cell TlsStruct
tls_cell = record {
  zero_value = record {
    enabled = false;
    secret_reference_name = none;
    permitted_peer = none;
    auth_mode = none;
    tls_lib = none;
  };
  wrap = tls;
  read = read_tls;
  reads = λ t. refl;
}

abbrev pub audit_cell : CellType Cell AuditConfigStruct
audit_cell = record {
  zero_value = record { enabled = false; config_map_reference_name = none };
  wrap = audit;
  read = read_audit;
  reads = λ a. refl;
}

abbrev pub zero_type_meta : TypeMeta
zero_type_meta = record { kind = ""; api_version = "" }

abbrev pub config_cell : CellType Cell RsyslogRelpConfigStruct
config_cell = record {
  zero_value = record {
    type_meta = zero_type_meta;
    target = "";
    port = pos 0;
    tls = none;
    logging_rules = none;
    rebind_interval = none;
    timeout = none;
    resume_retry_count = none;
    report_suspension_continuation = none;
    audit_config = none;
  };
  wrap = config;
  read = read_config;
  reads = λ c. refl;
}

abbrev pub auditd_cell : CellType Cell AuditdStruct
auditd_cell = record {
  zero_value = record { type_meta = zero_type_meta; audit_rules = "" };
  wrap = auditd;
  read = read_auditd;
  reads = λ a. refl;
}
