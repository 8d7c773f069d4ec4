-- ===== src/V1alpha1/Laws.antt =====
-- The conversions lose nothing but the TypeMeta, and the default of the audit configuration does
-- not change what is deployed.
use gardener_extension_shoot.Common.{
  String, List, [], ◌∷◌, map, Option, none, some, ◌≡◌, refl, ap, Option-cases, inl, inr,
}
use gardener_extension_shoot.Api
use gardener_extension_shoot.Osc.Files.{Cluster, Library}
use gardener_extension_shoot.Osc.Audit.{AuditLibrary, get_audit_files}
use gardener_extension_shoot.Osc.Ensurer.{audit_enabled}
use gardener_extension_shoot.Lifecycle.Monitoring.{alerting_rules}
use gardener_extension_shoot.V1alpha1.{
  RsyslogRelpConfig, LoggingRule, cast, set_defaults, audit_config_to_internal,
  message_content_to_internal, logging_rule_to_internal, tls_to_internal, config_to_internal,
  audit_config_to_v1alpha1, message_content_to_v1alpha1, logging_rule_to_v1alpha1, tls_to_v1alpha1,
  config_to_v1alpha1,
}

cast-cast :
    {A B : Type 0} (f : A → B) (g : B → A)
    → ((a : A) → g (f a) ≡ a)
    → (o : Option A) → cast g (cast f o) ≡ o
cast-cast f g h none = refl
cast-cast f g h (some a) = ap some (h a)

map-map_inverse :
    {A B : Type 0} (f : A → B) (g : B → A)
    → ((a : A) → g (f a) ≡ a)
    → (l : List A) → map g (map f l) ≡ l
map-map_inverse f g h [] = refl
map-map_inverse f g h (a ∷ l) = rw (h a, map-map_inverse f g h l) refl

logging_rule-of_internal :
    (rule : LoggingRule) → logging_rule_to_v1alpha1 (logging_rule_to_internal rule) ≡ rule
unfolding logging_rule_to_v1alpha1 logging_rule_to_internal
logging_rule-of_internal rule =
    ap (λ c. record rule { message_content = c })
      (cast-cast message_content_to_internal message_content_to_v1alpha1 (λ c. refl)
        rule.message_content)

logging_rule-of_v1alpha1 :
    (rule : Api.LoggingRule) → logging_rule_to_internal (logging_rule_to_v1alpha1 rule) ≡ rule
unfolding logging_rule_to_v1alpha1 logging_rule_to_internal
logging_rule-of_v1alpha1 rule =
    ap (λ c. record rule { message_content = c })
      (cast-cast message_content_to_v1alpha1 message_content_to_internal (λ c. refl)
        rule.message_content)

-- A versioned configuration that is converted to the internal type and back is as it was, but for
-- its TypeMeta, which is that of the object that is written into.
pub config_to_v1alpha1-to_internal :
    (config out' : RsyslogRelpConfig) (out : Api.RsyslogRelpConfig)
    → config_to_v1alpha1 (config_to_internal config out) out'
      ≡ record config { type_meta = out'.type_meta }
unfolding config_to_v1alpha1 config_to_internal
config_to_v1alpha1-to_internal config out' out =
    rw
      (
        map-map_inverse logging_rule_to_internal logging_rule_to_v1alpha1 logging_rule-of_internal
            config.logging_rules,
        cast-cast tls_to_internal tls_to_v1alpha1 (λ t. refl) config.tls,
        cast-cast audit_config_to_internal audit_config_to_v1alpha1 (λ a. refl) config.audit_config,
      )
      refl

-- An internal configuration that is converted to the versioned type and back is as it was, but for
-- its TypeMeta, which is that of the object that is written into.
pub config_to_internal-to_v1alpha1 :
    (config out' : Api.RsyslogRelpConfig) (out : RsyslogRelpConfig)
    → config_to_internal (config_to_v1alpha1 config out) out'
      ≡ record config { type_meta = out'.type_meta }
unfolding config_to_v1alpha1 config_to_internal
config_to_internal-to_v1alpha1 config out' out =
    rw
      (
        map-map_inverse logging_rule_to_v1alpha1 logging_rule_to_internal logging_rule-of_v1alpha1
            config.logging_rules,
        cast-cast tls_to_v1alpha1 tls_to_internal (λ t. refl) config.tls,
        cast-cast audit_config_to_v1alpha1 audit_config_to_internal (λ a. refl) config.audit_config,
      )
      refl

-- A configuration with the defaults set deploys what it does without them: the alerts, whether there
-- are files with audit rules, and these files are the same. So the controller and the webhook, which
-- take an absent audit configuration for an enabled one, agree with the default. Setting the defaults
-- again changes nothing.
pub set_defaults-deploys :
    (library : Library) (audit : AuditLibrary) (namespace : String) (cluster : Cluster)
    (config : RsyslogRelpConfig) (out : Api.RsyslogRelpConfig)
    → let given = config_to_internal config out in
      let defaulted = config_to_internal (set_defaults config) out in
      (alerting_rules defaulted.audit_config ≡ alerting_rules given.audit_config)
      × (audit_enabled defaulted.audit_config ≡ audit_enabled given.audit_config)
      × (get_audit_files library audit namespace defaulted cluster
          ≡ get_audit_files library audit namespace given cluster)
      × (set_defaults (set_defaults config) ≡ set_defaults config)
unfolding config_to_internal set_defaults get_audit_files alerting_rules
set_defaults-deploys library audit namespace cluster config out =
    elim (Option-cases config.audit_config) [
      | inl absent ↦ rw absent (refl, refl, refl, refl)
      | inr (audit_config, given) ↦ rw given (refl, refl, refl, refl)
    ]
