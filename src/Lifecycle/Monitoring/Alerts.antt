-- ===== src/Lifecycle/Monitoring/Alerts.antt =====
-- Which alerts the audit configuration asks for.
use gardener_extension_shoot.Common.{
  List, [], ◌∷◌, All, Option, none, some, ◌≡◌, ◌≢◌, ◌↔◌, ◌⊎◌, if_cases, ap, true, inl, inr, refl,
  arith, eq_iff,
}
use gardener_extension_shoot.Api.{AuditConfig}
use gardener_extension_shoot.Lifecycle.Kube.{Rule}
use gardener_extension_shoot.Lifecycle.Monitoring.{
  too_many_failures, processing_rate_is_zero, audit_rules_not_loaded, alerting_rules,
}

-- A rule is one of a list.
abbrev pub IsIn : Rule → List Rule → Type 0
IsIn rule [] = ⊥
IsIn rule (r ∷ rules) = (rule ≡ r) ⊎ IsIn rule rules

-- The audit rules are used if the configuration does not say otherwise.
abbrev pub UsesAuditRules : Option AuditConfig → Type 0
UsesAuditRules none = Unit
UsesAuditRules (some audit) = audit.enabled ≡ true

abbrev IsAlert : Rule → Type 0
IsAlert rule =
    (rule ≡ too_many_failures) ⊎ (rule ≡ processing_rate_is_zero) ⊎ (rule ≡ audit_rules_not_loaded)

-- The two alerts on the relp action, that on the audit rules exactly if they are used, and no other.
pub record HasAlerts (audit_config : Option AuditConfig) (rules : List Rule) : Type 0 where
  pub failures : IsIn too_many_failures rules
  pub rate : IsIn processing_rate_is_zero rules
  pub audit : IsIn audit_rules_not_loaded rules ↔ UsesAuditRules audit_config
  pub no_other : All IsAlert rules

alert_names_differ :
    (audit_rules_not_loaded.alert ≢ too_many_failures.alert)
    × (audit_rules_not_loaded.alert ≢ processing_rate_is_zero.alert)
alert_names_differ = ground (
  arith,
  eq_iff audit_rules_not_loaded.alert too_many_failures.alert,
  eq_iff audit_rules_not_loaded.alert processing_rate_is_zero.alert,
)

-- The audit alert is not one of the other two.
audit_alert_apart :
    IsIn audit_rules_not_loaded (too_many_failures ∷ processing_rate_is_zero ∷ []) → ⊥
audit_alert_apart (inl e) = alert_names_differ.0 (ap (λ (r : Rule). r.alert) e)
audit_alert_apart (inr (inl e)) = alert_names_differ.1 (ap (λ (r : Rule). r.alert) e)
audit_alert_apart (inr (inr e)) = e

-- the lists with the audit alert and without it
with_audit-HasAlerts :
    (audit_config : Option AuditConfig)
    → UsesAuditRules audit_config
    → HasAlerts audit_config
        (too_many_failures ∷ processing_rate_is_zero ∷ audit_rules_not_loaded ∷ [])
with_audit-HasAlerts audit_config used = record {
  failures = inl refl;
  rate = inr (inl refl);
  audit = (λ here. used, λ u. inr (inr (inl refl)));
  no_other = (inl refl, (inr (inl refl), (inr (inr refl), tt)));
}

without_audit-HasAlerts :
    (audit_config : Option AuditConfig)
    → (UsesAuditRules audit_config → ⊥)
    → HasAlerts audit_config (too_many_failures ∷ processing_rate_is_zero ∷ [])
without_audit-HasAlerts audit_config unused = record {
  failures = inl refl;
  rate = inr (inl refl);
  audit = (λ here. absurd (audit_alert_apart here), λ used. absurd (unused used));
  no_other = (inl refl, (inr (inl refl), tt));
}

pub alerting_rules-HasAlerts :
    (audit_config : Option AuditConfig) → HasAlerts audit_config (alerting_rules audit_config)
unfolding alerting_rules
alerting_rules-HasAlerts none = with_audit-HasAlerts none tt
alerting_rules-HasAlerts (some audit) =
    if_cases
      (λ (extra : List Rule).
        HasAlerts (some audit) (too_many_failures ∷ processing_rate_is_zero ∷ extra))
      audit.enabled _ _ (with_audit-HasAlerts (some audit))
      (λ off. without_audit-HasAlerts (some audit) (λ on. cc))
