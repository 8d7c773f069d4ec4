-- ===== src/Validation/Documented.antt =====
-- What docs/development/input-validation.md asks of a configuration, and where the code agrees.
use gardener_extension_shoot.Common.{
  String, [], Option, none, some, true, false, ◌≡◌, ◌≢◌, ◌↔◌, All, codes,
}
use gardener_extension_shoot.Common.Int.{is_negative}
use gardener_extension_shoot.Api.{RsyslogRelpConfig, AuditConfig, LoggingRule, MessageContent}
use gardener_extension_shoot.Go.Strconv.{Unicode}
use gardener_extension_shoot.Validation.Patterns.{Checker}
use gardener_extension_shoot.Validation.Accepted.{
  IsNamed, IsTarget, IsTlsGiven, IsQuotedRegex, IsRuleWith,
}

-- An enabled audit configuration names its ConfigMap.
abbrev pub IsAuditNamed : Option AuditConfig → Type 0
IsAuditNamed none = Unit
IsAuditNamed (some audit) = audit.enabled ≡ true → IsNamed audit.config_map_reference_name

module _ (unicode : Unicode) (checker : Checker) where
  -- The text is a POSIX extended regular expression.
  abbrev pub IsEre : Option String → Type 0
  IsEre none = Unit
  IsEre (some s) = checker.compile_posix (codes s) ≡ none

  pub record IsDocumented (config : RsyslogRelpConfig) : Type 0 where
    pub target : IsTarget unicode checker config.target
    pub port : is_negative config.port ≡ false
    pub tls : IsTlsGiven unicode checker config.tls
    pub some_rule : config.logging_rules ≢ []
    pub rules : All (IsRuleWith IsEre) config.logging_rules
    pub audit : IsAuditNamed config.audit_config

  -- It makes no difference to the regex whether it is quoted.
  abbrev pub IsIndifferent : Option String → Type 0
  IsIndifferent regex = IsQuotedRegex unicode checker regex ↔ IsEre regex

  abbrev pub AreIndifferent : Option MessageContent → Type 0
  AreIndifferent none = Unit
  AreIndifferent (some content) = IsIndifferent content.regex × IsIndifferent content.exclude

  abbrev pub HasIndifferent : LoggingRule → Type 0
  HasIndifferent rule = AreIndifferent rule.message_content
