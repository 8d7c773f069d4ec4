-- ===== src/DeepCopy/Structs.antt =====
-- Copies of the structs.
use gardener_extension_shoot.Common.{ℕ, List, [], ◌∷◌, Option}
use gardener_extension_shoot.Common.Memory.{Cells, unless_nil}
use gardener_extension_shoot.Common.Memory.Laws.{
  Copies, Pointer, Slice, pure-Copies, >>=-Copies, Pointer-Copies, Slice-Copies,
}
use gardener_extension_shoot.Api.{AuditConfig, MessageContent, LoggingRule, Tls}
use gardener_extension_shoot.DeepCopy.{
  copy_text, copy_number, copy_texts, deep_copy_into_audit_config, new_audit_config,
  deep_copy_into_message_content, new_message_content, deep_copy_into_logging_rule,
  deep_copy_into_each, copy_rules, deep_copy_into_tls, new_tls,
}
use gardener_extension_shoot.DeepCopy.Layout.{
  Cell, rules, message, tls, audit, rules_cell, message_cell, tls_cell, audit_cell, zero_rule,
  AuditConfigStruct, MessageContentStruct, LoggingRuleStruct, TlsStruct,
}
use gardener_extension_shoot.DeepCopy.Holds.{
  Holds, IsAuditConfig, IsMessageContent, IsLoggingRule, AreLoggingRules, IsTls,
}
use gardener_extension_shoot.DeepCopy.Fields.{
  new-Copies, new_slice-Copies, copy_text-Copies, copy_number-Copies, copy_texts-Copies,
}

module _ (c : Cells Cell) where
  deep_copy_into_audit_config-Copies :
      (t : AuditConfigStruct) (v : AuditConfig)
      → IsAuditConfig c t v
      → Copies c (deep_copy_into_audit_config t) (λ d u. IsAuditConfig d u v)
  unfolding deep_copy_into_audit_config
  deep_copy_into_audit_config-Copies t v is =
      >>=-Copies c (unless_nil copy_text t.config_map_reference_name) _ _ _
        (copy_text-Copies c t.config_map_reference_name v.config_map_reference_name is.reference)
        λ reference.
          pure-Copies c (record t { config_map_reference_name = reference }) _
            λ d held. record { enabled = is.enabled; reference = held }

  deep_copy_into_message_content-Copies :
      (t : MessageContentStruct) (v : MessageContent)
      → IsMessageContent c t v
      → Copies c (deep_copy_into_message_content t) (λ d u. IsMessageContent d u v)
  unfolding deep_copy_into_message_content
  deep_copy_into_message_content-Copies t v is =
      >>=-Copies c (unless_nil copy_text t.regex) _ _ _
        (copy_text-Copies c t.regex v.regex is.regex)
        λ regex.
          >>=-Copies c (unless_nil copy_text t.exclude) _ _ _
            (copy_text-Copies c t.exclude v.exclude is.exclude)
            λ exclude.
              pure-Copies c _ _
                λ d held_exclude held_regex. record { regex = held_regex; exclude = held_exclude }

  deep_copy_into_logging_rule-Copies :
      (t : LoggingRuleStruct) (v : LoggingRule)
      → IsLoggingRule c t v
      → Copies c (deep_copy_into_logging_rule t) (λ d u. IsLoggingRule d u v)
  unfolding deep_copy_into_logging_rule
  deep_copy_into_logging_rule-Copies t v is =
      >>=-Copies c (unless_nil copy_texts t.program_names) _ _ _
        (copy_texts-Copies c t.program_names v.program_names is.program_names)
        λ program_names.
          >>=-Copies c (unless_nil copy_number t.severity) _ _ _
            (copy_number-Copies c t.severity v.severity is.severity)
            λ severity.
              >>=-Copies c (unless_nil new_message_content t.message_content) _ _ _
                (Pointer-Copies c new_message_content (Holds message IsMessageContent)
                  t.message_content v.message_content is.message_content
                  (new-Copies c message_cell deep_copy_into_message_content IsMessageContent
                    deep_copy_into_message_content-Copies))
                λ message_content. pure-Copies c _ _ λ d held_content held_severity held_names.
                  record {
                    program_names = held_names;
                    severity = held_severity;
                    message_content = held_content;
                  }

  deep_copy_into_each-Copies :
      (ts : List LoggingRuleStruct) (vs : List LoggingRule)
      → AreLoggingRules c ts vs
      → Copies c (deep_copy_into_each ts) (λ d us. AreLoggingRules d us vs)
  unfolding deep_copy_into_each
  deep_copy_into_each-Copies [] [] are = pure-Copies c [] _ (λ d. tt)
  deep_copy_into_each-Copies [] (v ∷ vs) are = elim are [ ]
  deep_copy_into_each-Copies (t ∷ ts) [] are = elim are [ ]
  deep_copy_into_each-Copies (t ∷ ts) (v ∷ vs) are =
      >>=-Copies c (deep_copy_into_logging_rule t) _ _ _
        (deep_copy_into_logging_rule-Copies t v are.0)
        λ out.
          >>=-Copies c (deep_copy_into_each ts) _ _ _ (deep_copy_into_each-Copies ts vs are.1)
            λ outs. pure-Copies c (out ∷ outs) _ (λ d held_outs held_out. (held_out, held_outs))

  deep_copy_into_tls-Copies :
      (t : TlsStruct) (v : Tls) → IsTls c t v → Copies c (deep_copy_into_tls t) (λ d u. IsTls d u v)
  unfolding deep_copy_into_tls
  deep_copy_into_tls-Copies t v is =
      >>=-Copies c (unless_nil copy_text t.secret_reference_name) _ _ _
        (copy_text-Copies c t.secret_reference_name v.secret_reference_name
          is.secret_reference_name)
        λ name.
          >>=-Copies c (unless_nil copy_texts t.permitted_peer) _ _ _
            (copy_texts-Copies c t.permitted_peer v.permitted_peer is.permitted_peer)
            λ peers.
              >>=-Copies c (unless_nil copy_text t.auth_mode) _ _ _
                (copy_text-Copies c t.auth_mode v.auth_mode is.auth_mode)
                λ mode.
                  >>=-Copies c (unless_nil copy_text t.tls_lib) _ _ _
                    (copy_text-Copies c t.tls_lib v.tls_lib is.tls_lib)
                    λ lib. pure-Copies c _ _ λ d held_lib held_mode held_peers held_name. record {
                      enabled = is.enabled;
                      secret_reference_name = held_name;
                      permitted_peer = held_peers;
                      auth_mode = held_mode;
                      tls_lib = held_lib;
                    }

  pub new_tls-Copies :
      (p : Option ℕ) (v : Option Tls)
      → Pointer (Holds tls IsTls c) p v
      → Copies c (unless_nil new_tls p) (λ d q. Pointer (Holds tls IsTls d) q v)
  new_tls-Copies p v held =
      Pointer-Copies c new_tls (Holds tls IsTls) p v held
        (new-Copies c tls_cell deep_copy_into_tls IsTls deep_copy_into_tls-Copies)

  pub copy_rules-Copies :
      (p : Option ℕ) (vs : List LoggingRule)
      → Slice (Holds rules AreLoggingRules c) p vs
      → Copies c (unless_nil copy_rules p) (λ d q. Slice (Holds rules AreLoggingRules d) q vs)
  copy_rules-Copies p vs held =
      Slice-Copies c copy_rules (Holds rules AreLoggingRules) p vs held λ q.
        new_slice-Copies c zero_rule rules_cell deep_copy_into_each AreLoggingRules
          deep_copy_into_each-Copies q vs

  pub new_audit_config-Copies :
      (p : Option ℕ) (v : Option AuditConfig)
      → Pointer (Holds audit IsAuditConfig c) p v
      → Copies c (unless_nil new_audit_config p) (λ d q. Pointer (Holds audit IsAuditConfig d) q v)
  new_audit_config-Copies p v held =
      Pointer-Copies c new_audit_config (Holds audit IsAuditConfig) p v held (
        new-Copies c audit_cell deep_copy_into_audit_config IsAuditConfig
          deep_copy_into_audit_config-Copies)
