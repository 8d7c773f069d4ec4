-- ===== src/Validation/Accepted.antt =====
-- What a configuration is that the validation accepts, said without its error lists, and that it
-- returns no error for exactly these.
use gardener_extension_shoot.Common.{
  String, [], Option, none, some, true, false, ◌≡◌, ◌≢◌, ◌⊎◌, All, codes,
}
use gardener_extension_shoot.Common.Int.{is_negative}
use gardener_extension_shoot.Api.{
  RsyslogRelpConfig, Tls, LoggingRule, MessageContent, auth_mode_name, auth_mode_finger_print,
  tls_lib_open_ssl, tls_lib_gnu_tls,
}
use gardener_extension_shoot.Field.{new_path}
use gardener_extension_shoot.Go.Strconv.{Unicode, quote}
use gardener_extension_shoot.Validation.Patterns.{Checker}
use gardener_extension_shoot.Validation.Matches.{IsPrintable, IsAllowed, IsSha1Peer}

-- a text that is given and not empty
abbrev pub IsNamed : Option String → Type 0
IsNamed none = ⊥
IsNamed (some s) = s ≢ ""

abbrev pub IsOneOf : String → String → Option String → Type 0
IsOneOf a b none = Unit
IsOneOf a b (some s) = (s ≡ a) ⊎ (s ≡ b)

pub record IsProgramName (name : String) : Type 0 where
  pub given : name ≢ ""
  pub printable : All IsPrintable (codes name)
  pub allowed : All IsAllowed (codes name)

-- The conditions on a rule, where it is left open which regexes there may be.
module _ (IsPattern : Option String → Type 0) where
  pub record IsMessageContent (content : MessageContent) : Type 0 where
    pub some_regex : (content.regex ≢ none) ⊎ (content.exclude ≢ none)
    pub regex : IsPattern content.regex
    pub exclude : IsPattern content.exclude

  abbrev pub IsContentWith : Option MessageContent → Type 0
  IsContentWith none = Unit
  IsContentWith (some content) = IsMessageContent content

  pub record IsRuleWith (rule : LoggingRule) : Type 0 where
    pub some_condition :
        (rule.program_names ≢ []) ⊎ (rule.severity ≢ none) ⊎ (rule.message_content ≢ none)
    pub program_names : All IsProgramName rule.program_names
    pub content : IsContentWith rule.message_content

module _ (unicode : Unicode) (checker : Checker) where
  pub record IsTarget (target : String) : Type 0 where
    pub given : target ≢ ""
    pub address :
        (checker.is_valid_ip (new_path "target" []) target ≡ [])
        ⊎ (checker.is_dns1123_subdomain target ≡ [])

  pub record IsPeer (peer : String) : Type 0 where
    pub given : peer ≢ ""
    pub identity :
        IsSha1Peer peer
        ⊎ (checker.is_wildcard_dns1123_subdomain peer ≡ [])
        ⊎ (checker.is_dns1123_subdomain peer ≡ [])

  pub record IsTls (tls : Tls) : Type 0 where
    pub secret : tls.enabled ≡ true → IsNamed tls.secret_reference_name
    pub auth_mode : IsOneOf auth_mode_name auth_mode_finger_print tls.auth_mode
    pub tls_lib : IsOneOf tls_lib_open_ssl tls_lib_gnu_tls tls.tls_lib
    pub peers : All IsPeer tls.permitted_peer

  -- A regex compiles once it is quoted, which is what the code asks. Quoting doubles a backslash, so
  -- that the text itself need not be an ERE, and an ERE need not pass.
  abbrev pub IsQuotedRegex : Option String → Type 0
  IsQuotedRegex none = Unit
  IsQuotedRegex (some s) = checker.compile_posix (quote unicode s) ≡ none

  abbrev pub IsContent : Option MessageContent → Type 0
  IsContent content = IsContentWith IsQuotedRegex content

  abbrev pub IsRule : LoggingRule → Type 0
  IsRule rule = IsRuleWith IsQuotedRegex rule

  abbrev pub IsTlsGiven : Option Tls → Type 0
  IsTlsGiven none = Unit
  IsTlsGiven (some tls) = IsTls tls

  -- There is no condition on the audit configuration.
  pub record IsAccepted (config : RsyslogRelpConfig) : Type 0 where
    pub target : IsTarget config.target
    pub port : is_negative config.port ≡ false
    pub tls : IsTlsGiven config.tls
    pub some_rule : config.logging_rules ≢ []
    pub rules : All IsRule config.logging_rules
