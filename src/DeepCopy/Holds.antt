-- ===== src/DeepCopy/Holds.antt =====
-- What the structs in memory stand for: the values of the configuration that they hold.
use gardener_extension_shoot.Common.{String, ℕ, List, [], ◌∷◌, some, Bool, ◌≡◌}
use gardener_extension_shoot.Common.Int.{ℤ}
use gardener_extension_shoot.Common.Memory.{Cells}
use gardener_extension_shoot.Common.Memory.Laws.{Pointer, Slice}
use gardener_extension_shoot.Api.{
  AuditConfig, Auditd, MessageContent, LoggingRule, Tls, RsyslogRelpConfig,
}
use gardener_extension_shoot.DeepCopy.Layout.{
  Cell, text, number, flag, texts, rules, message, tls, audit, config, auditd, AuditConfigStruct,
  AuditdStruct, MessageContentStruct, LoggingRuleStruct, TlsStruct, RsyslogRelpConfigStruct,
}

-- A cell holds a struct that stands for a value.
abbrev pub Holds :
    {T A : Type 0} → (T → Cell) → (Cells Cell → T → A → Type 0) → Cells Cell → ℕ → A → Type 0
Holds {T = T} wrap Is d p a = (t : T) × (d p ≡ some (wrap t)) × Is d t a

-- a value with no pointer in it
abbrev pub Same : {A : Type 0} → Cells Cell → A → A → Type 0
Same d a b = a ≡ b

abbrev pub HasText : Cells Cell → ℕ → String → Type 0
HasText = Holds text Same

abbrev pub HasNumber : Cells Cell → ℕ → ℤ → Type 0
HasNumber = Holds number Same

abbrev pub HasFlag : Cells Cell → ℕ → Bool → Type 0
HasFlag = Holds flag Same

abbrev pub HasTexts : Cells Cell → ℕ → List String → Type 0
HasTexts = Holds texts Same

pub record IsAuditConfig (d : Cells Cell) (t : AuditConfigStruct) (v : AuditConfig) : Type 0 where
  pub enabled : t.enabled ≡ v.enabled
  pub reference : Pointer (HasText d) t.config_map_reference_name v.config_map_reference_name

pub record IsAuditd (d : Cells Cell) (t : AuditdStruct) (v : Auditd) : Type 0 where
  pub type_meta : t.type_meta ≡ v.type_meta
  pub audit_rules : t.audit_rules ≡ v.audit_rules

pub record IsMessageContent (d : Cells Cell) (t : MessageContentStruct) (v : MessageContent)
    : Type 0 where
  pub regex : Pointer (HasText d) t.regex v.regex
  pub exclude : Pointer (HasText d) t.exclude v.exclude

pub record IsLoggingRule (d : Cells Cell) (t : LoggingRuleStruct) (v : LoggingRule) : Type 0 where
  pub program_names : Slice (HasTexts d) t.program_names v.program_names
  pub severity : Pointer (HasNumber d) t.severity v.severity
  pub message_content :
      Pointer (Holds message IsMessageContent d) t.message_content v.message_content

-- The elements of an array stand for those of a list.
abbrev pub AreLoggingRules : Cells Cell → List LoggingRuleStruct → List LoggingRule → Type 0
AreLoggingRules d [] [] = Unit {0}
AreLoggingRules d (t ∷ ts) (v ∷ vs) = IsLoggingRule d t v × AreLoggingRules d ts vs
AreLoggingRules d _ _ = ⊥

pub record IsTls (d : Cells Cell) (t : TlsStruct) (v : Tls) : Type 0 where
  pub enabled : t.enabled ≡ v.enabled
  pub secret_reference_name : Pointer (HasText d) t.secret_reference_name v.secret_reference_name
  pub permitted_peer : Slice (HasTexts d) t.permitted_peer v.permitted_peer
  pub auth_mode : Pointer (HasText d) t.auth_mode v.auth_mode
  pub tls_lib : Pointer (HasText d) t.tls_lib v.tls_lib

pub record IsRsyslogRelpConfig (d : Cells Cell) (t : RsyslogRelpConfigStruct)
    (v : RsyslogRelpConfig) : Type 0 where
  pub type_meta : t.type_meta ≡ v.type_meta
  pub target : t.target ≡ v.target
  pub port : t.port ≡ v.port
  pub tls : Pointer (Holds tls IsTls d) t.tls v.tls
  pub logging_rules : Slice (Holds rules AreLoggingRules d) t.logging_rules v.logging_rules
  pub rebind_interval : Pointer (HasNumber d) t.rebind_interval v.rebind_interval
  pub timeout : Pointer (HasNumber d) t.timeout v.timeout
  pub resume_retry_count : Pointer (HasNumber d) t.resume_retry_count v.resume_retry_count
  pub continuation :
      Pointer (HasFlag d) t.report_suspension_continuation v.report_suspension_continuation
  pub audit_config : Pointer (Holds audit IsAuditConfig d) t.audit_config v.audit_config

abbrev pub HasRsyslogRelpConfig : Cells Cell → ℕ → RsyslogRelpConfig → Type 0
HasRsyslogRelpConfig = Holds config IsRsyslogRelpConfig

abbrev pub HasAuditd : Cells Cell → ℕ → Auditd → Type 0
HasAuditd = Holds auditd IsAuditd
