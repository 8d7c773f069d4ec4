-- ===== src/DeepCopy.antt =====
-- pkg/apis/rsyslog/zz_generated.deepcopy.go. A DeepCopyInto returns what `*out` holds in the end:
-- nothing else refers to `*out` before its caller goes on.
pub mod Layout
pub mod Holds
pub mod Fields
pub mod Structs
pub mod Stable
pub mod Laws
use gardener_extension_shoot.Common.{ℕ, List, [], ◌∷◌, Option, none, some}
use gardener_extension_shoot.Common.Memory.{
  Memory, ◌>>=◌, pure, copy_pointer, copy_slice, unless_nil,
}
use gardener_extension_shoot.DeepCopy.Layout.{
  Cell, AuditConfigStruct, AuditdStruct, MessageContentStruct, LoggingRuleStruct, TlsStruct,
  RsyslogRelpConfigStruct, text_cell, number_cell, flag_cell, texts_cell, rules_cell, rule_cell,
  zero_rule, message_cell, tls_cell, audit_cell, config_cell, auditd_cell,
}

-- `*out = new(string); **out = **in`
abbrev pub copy_text : ℕ → Memory Cell ℕ
copy_text = copy_pointer text_cell pure

abbrev pub copy_number : ℕ → Memory Cell ℕ
copy_number = copy_pointer number_cell pure

abbrev pub copy_flag : ℕ → Memory Cell ℕ
copy_flag = copy_pointer flag_cell pure

-- `*out = make([]string, len(*in)); copy(*out, *in)`
abbrev pub copy_texts : ℕ → Memory Cell ℕ
copy_texts = copy_slice "" texts_cell pure

unfoldable pub deep_copy_into_audit_config : AuditConfigStruct → Memory Cell AuditConfigStruct
deep_copy_into_audit_config in_ = do
  reference ← unless_nil copy_text in_.config_map_reference_name
  pure (record in_ { config_map_reference_name = reference })

abbrev pub new_audit_config : ℕ → Memory Cell ℕ
new_audit_config = copy_pointer audit_cell deep_copy_into_audit_config

abbrev pub deep_copy_audit_config : Option ℕ → Memory Cell (Option ℕ)
deep_copy_audit_config = unless_nil new_audit_config

abbrev pub deep_copy_into_auditd : AuditdStruct → Memory Cell AuditdStruct
deep_copy_into_auditd in_ = pure (record in_ { type_meta = in_.type_meta })

abbrev pub deep_copy_auditd : Option ℕ → Memory Cell (Option ℕ)
deep_copy_auditd = unless_nil (copy_pointer auditd_cell deep_copy_into_auditd)

unfoldable pub deep_copy_into_message_content :
    MessageContentStruct → Memory Cell MessageContentStruct
deep_copy_into_message_content in_ = do
  regex ← unless_nil copy_text in_.regex
  exclude ← unless_nil copy_text in_.exclude
  pure (record in_ { regex = regex; exclude = exclude })

abbrev pub new_message_content : ℕ → Memory Cell ℕ
new_message_content = copy_pointer message_cell deep_copy_into_message_content

abbrev pub deep_copy_message_content : Option ℕ → Memory Cell (Option ℕ)
deep_copy_message_content = unless_nil new_message_content

unfoldable pub deep_copy_into_logging_rule : LoggingRuleStruct → Memory Cell LoggingRuleStruct
unfolding deep_copy_into_message_content
deep_copy_into_logging_rule in_ = do
  program_names ← unless_nil copy_texts in_.program_names
  severity ← unless_nil copy_number in_.severity
  message_content ← unless_nil new_message_content in_.message_content
  pure (record {
    program_names = program_names;
    severity = severity;
    message_content = message_content;
  })

abbrev pub deep_copy_logging_rule : Option ℕ → Memory Cell (Option ℕ)
deep_copy_logging_rule = unless_nil (copy_pointer rule_cell deep_copy_into_logging_rule)

-- the loop over the rules
unfoldable pub deep_copy_into_each : List LoggingRuleStruct → Memory Cell (List LoggingRuleStruct)
unfolding deep_copy_into_logging_rule
deep_copy_into_each [] = pure []
deep_copy_into_each (r ∷ rs) = do
  out ← deep_copy_into_logging_rule r
  outs ← deep_copy_into_each rs
  pure (out ∷ outs)

abbrev pub copy_rules : ℕ → Memory Cell ℕ
copy_rules = copy_slice zero_rule rules_cell deep_copy_into_each

unfoldable pub deep_copy_into_tls : TlsStruct → Memory Cell TlsStruct
deep_copy_into_tls in_ = do
  secret_reference_name ← unless_nil copy_text in_.secret_reference_name
  permitted_peer ← unless_nil copy_texts in_.permitted_peer
  auth_mode ← unless_nil copy_text in_.auth_mode
  tls_lib ← unless_nil copy_text in_.tls_lib
  pure (record {
    enabled = in_.enabled;
    secret_reference_name = secret_reference_name;
    permitted_peer = permitted_peer;
    auth_mode = auth_mode;
    tls_lib = tls_lib;
  })

abbrev pub new_tls : ℕ → Memory Cell ℕ
new_tls = copy_pointer tls_cell deep_copy_into_tls

abbrev pub deep_copy_tls : Option ℕ → Memory Cell (Option ℕ)
deep_copy_tls = unless_nil new_tls

unfoldable pub deep_copy_into_rsyslog_relp_config :
    RsyslogRelpConfigStruct → Memory Cell RsyslogRelpConfigStruct
unfolding deep_copy_into_tls deep_copy_into_each deep_copy_into_audit_config
deep_copy_into_rsyslog_relp_config in_ = do
  tls ← unless_nil new_tls in_.tls
  logging_rules ← unless_nil copy_rules in_.logging_rules
  rebind_interval ← unless_nil copy_number in_.rebind_interval
  timeout ← unless_nil copy_number in_.timeout
  resume_retry_count ← unless_nil copy_number in_.resume_retry_count
  continuation ← unless_nil copy_flag in_.report_suspension_continuation
  audit_config ← unless_nil new_audit_config in_.audit_config
  pure (record in_ {
    tls = tls;
    logging_rules = logging_rules;
    rebind_interval = rebind_interval;
    timeout = timeout;
    resume_retry_count = resume_retry_count;
    report_suspension_continuation = continuation;
    audit_config = audit_config;
  })

unfoldable pub deep_copy_rsyslog_relp_config : Option ℕ → Memory Cell (Option ℕ)
unfolding deep_copy_into_rsyslog_relp_config
deep_copy_rsyslog_relp_config =
    unless_nil (copy_pointer config_cell deep_copy_into_rsyslog_relp_config)

-- runtime.Object, with the pointer that the interface holds
pub data Object : Type 0 where
  auditd_object : ℕ → Object
  config_object : ℕ → Object

-- `if c := in.DeepCopy(); c != nil { return c }; return nil`
abbrev pub unless_nil_object : (ℕ → Object) → Option ℕ → Option Object
unless_nil_object object none = none
unless_nil_object object (some p) = some (object p)

unfoldable pub deep_copy_object_auditd : Option ℕ → Memory Cell (Option Object)
deep_copy_object_auditd in_ = do c ← deep_copy_auditd in_; pure (unless_nil_object auditd_object c)

unfoldable pub deep_copy_object_rsyslog_relp_config : Option ℕ → Memory Cell (Option Object)
unfolding deep_copy_rsyslog_relp_config
deep_copy_object_rsyslog_relp_config in_ = do
  c ← deep_copy_rsyslog_relp_config in_
  pure (unless_nil_object config_object c)
