-- ===== src/Validation.antt =====
-- pkg/apis/rsyslog/validation: ValidateRsyslogRelpConfig and ValidateAuditd. A loop that appends to
-- `allErrs` is a recursion that carries the index; the three regular expressions of the package are
-- matchers by hand in the child Patterns, and the proofs are in the other children.
pub mod Patterns
pub mod Matches
pub mod Accepted
pub mod Accepts
pub mod Errors
pub mod Documented
pub mod Backslashes
use gardener_extension_shoot.Common.{
  String, ℕ, suc, List, [], ◌∷◌, ◌++◌, map, Option, none, some, Bool, true, false, not, ◌&&◌, ◌||◌,
  str_eq, if◌then◌else◌, concat,
}
use gardener_extension_shoot.Common.Int.{ℤ, is_negative}
use gardener_extension_shoot.Api.{
  RsyslogRelpConfig, Tls, LoggingRule, MessageContent, Auditd, auth_mode_name,
  auth_mode_finger_print, tls_lib_open_ssl, tls_lib_gnu_tls,
}
use gardener_extension_shoot.Field.{
  FieldPath, new_path, child, index, text, int, pointer_to_text, FieldError, required, invalid,
  not_supported, ErrorList,
}
use gardener_extension_shoot.Go.Strconv.{Unicode, quote}
use gardener_extension_shoot.Validation.Patterns.{
  Checker, is_printable_text, has_invalid_character, is_sha1_peer,
}

-- `if cond { allErrs = append(allErrs, e) }`
abbrev pub error_if : Bool → FieldError → ErrorList
error_if true e = e ∷ []
error_if false e = []

abbrev pub is_empty {ℓ} : {A : Type ℓ} → List A → Bool
is_empty [] = true
is_empty (x ∷ xs) = false

abbrev pub is_nil {ℓ} : {A : Type ℓ} → Option A → Bool
is_nil none = true
is_nil (some a) = false

unfoldable pub validate_port : ℤ → FieldPath → ErrorList
validate_port port path =
    error_if (is_negative port) (invalid path (int port) "port cannot be less than 0")

-- sets.Set.Has
unfoldable pub has : List String → String → Bool
has [] s = false
has (x ∷ xs) s = str_eq x s || has xs s

-- The sets, in the order in which sets.List gives their elements.
abbrev pub available_auth_modes : List String
available_auth_modes = auth_mode_finger_print ∷ auth_mode_name ∷ []

abbrev pub available_tls_libs : List String
available_tls_libs = tls_lib_gnu_tls ∷ tls_lib_open_ssl ∷ []

-- `p != nil && !set.Has(*p)`
unfoldable pub not_supported_if : List String → Option String → FieldPath → ErrorList
unfolding has
not_supported_if available none path = []
not_supported_if available (some s) path =
    error_if (not (has available s)) (not_supported path (pointer_to_text s) available)

-- `p == nil || *p == ""`
abbrev pub is_nil_or_empty : Option String → Bool
is_nil_or_empty none = true
is_nil_or_empty (some s) = str_eq s ""

unfoldable pub validate_secret_reference : Tls → FieldPath → ErrorList
validate_secret_reference tls path =
    error_if (tls.enabled && is_nil_or_empty tls.secret_reference_name) (
      required (child path "secretReferenceName")
        "secretReferenceName must not be empty when tls is enabled")

unfoldable pub validate_program_name : String → FieldPath → ErrorList
validate_program_name name path =
    error_if (str_eq name "")
      (invalid path (text name) ".programNames can't contain empty program name")
    ++ error_if (has_invalid_character name)
        (invalid path (text name) ".programNames can't contain `[`, `:` or `/`")
    ++ error_if (not (is_printable_text name))
        (invalid path (text name) ".programNames can only contain printable characters")

-- validateProgramNames, from an index on
unfoldable pub validate_program_names : ℕ → List String → FieldPath → ErrorList
unfolding validate_program_name
validate_program_names i [] path = []
validate_program_names i (name ∷ names) path =
    validate_program_name name (index path i) ++ validate_program_names (suc i) names path

unfoldable pub validate_auditd : Auditd → ErrorList
validate_auditd auditd =
    error_if (str_eq auditd.audit_rules "")
      (invalid (new_path "auditRules" []) (text auditd.audit_rules) "auditRules must not be empty")

module _ (unicode : Unicode) (checker : Checker) where
  unfoldable pub validate_target : String → FieldPath → ErrorList
  validate_target target path =
      if str_eq target ""
      then required path "target must not be empty" ∷ []
      else let ip_errs = checker.is_valid_ip path target in
        let dns_errs = checker.is_dns1123_subdomain target in
        if not (is_empty ip_errs) && not (is_empty dns_errs)
        then ip_errs ++ map (invalid path (text target)) dns_errs
        else []

  -- one round of the loop over `tls.PermittedPeer`
  unfoldable pub validate_permitted_peer : String → FieldPath → ErrorList
  validate_permitted_peer peer path =
      let wildcard_errs = checker.is_wildcard_dns1123_subdomain peer in
      let subdomain_errs = checker.is_dns1123_subdomain peer in
      if str_eq peer ""
      then required path "value cannot be empty" ∷ []
      else if not (is_sha1_peer peer)
          && not (is_empty wildcard_errs)
          && not (is_empty subdomain_errs)
      then invalid path (text peer)
          ".permitedPeer elements can only match `^SHA1:[0-9A-Fa-f]{40}$` or be a hostname (wildcards allowed)"
        ∷ (map (invalid path (text peer)) wildcard_errs
            ++ map (invalid path (text peer)) subdomain_errs)
      else []

  -- the loop, from an index on
  unfoldable pub validate_permitted_peers : ℕ → List String → FieldPath → ErrorList
  unfolding validate_permitted_peer
  validate_permitted_peers i [] path = []
  validate_permitted_peers i (peer ∷ peers) path =
      validate_permitted_peer peer (index path i) ++ validate_permitted_peers (suc i) peers path

  unfoldable pub validate_tls : Option Tls → FieldPath → ErrorList
  unfolding validate_secret_reference not_supported_if validate_permitted_peers
  validate_tls none path = []
  validate_tls (some tls) path =
      validate_secret_reference tls path
      ++ not_supported_if available_auth_modes tls.auth_mode (child path "authMode")
      ++ not_supported_if available_tls_libs tls.tls_lib (child path "tlsLib")
      ++ validate_permitted_peers 0 tls.permitted_peer (child path "permittedPeer")

  unfoldable pub validate_regex : Option String → Option String
  validate_regex none = none
  validate_regex (some regex) = checker.compile_posix (quote unicode regex)

  abbrev pub regex_errors : Option String → FieldPath → ErrorList
  regex_errors none path = []
  regex_errors (some e) path =
      required path (concat ("not a valid POSIX ERE regular expression: " ∷ e ∷ [])) ∷ []

  unfoldable pub validate_message_content : Option MessageContent → FieldPath → ErrorList
  unfolding validate_regex
  validate_message_content none path = []
  validate_message_content (some content) path =
      error_if (is_nil content.regex && is_nil content.exclude)
        (required (child path "messageContent") "either .regex or .exclude has to be provided")
      ++ regex_errors (validate_regex content.regex) (child (child path "messageContent") "regex")
      ++ regex_errors (validate_regex content.exclude)
          (child (child path "messageContent") "exclude")

  -- one round of the loop over the rules; the path of the program names is that of the list of rules
  unfoldable pub validate_logging_rule : LoggingRule → ℕ → FieldPath → ErrorList
  unfolding validate_program_names validate_message_content
  validate_logging_rule rule i path =
      error_if (is_empty rule.program_names && is_nil rule.severity && is_nil rule.message_content)
        (required (index path i)
          "at least one of .programNames, .messageContent, or .severity is required")
      ++ validate_program_names 0 rule.program_names (child path "programNames")
      ++ validate_message_content rule.message_content (index path i)

  unfoldable pub validate_rules_from : ℕ → List LoggingRule → FieldPath → ErrorList
  unfolding validate_logging_rule
  validate_rules_from i [] path = []
  validate_rules_from i (rule ∷ rules) path =
      validate_logging_rule rule i path ++ validate_rules_from (suc i) rules path

  unfoldable pub validate_logging_rules : List LoggingRule → FieldPath → ErrorList
  unfolding validate_rules_from
  validate_logging_rules [] path = required path "at least one logging rule is required" ∷ []
  validate_logging_rules (rule ∷ rules) path = validate_rules_from 0 (rule ∷ rules) path

  -- The path that the caller passes is not used.
  unfoldable pub validate_rsyslog_relp_config : RsyslogRelpConfig → FieldPath → ErrorList
  unfolding validate_target validate_port validate_tls validate_logging_rules
  validate_rsyslog_relp_config config _ =
      validate_target config.target (new_path "target" [])
      ++ validate_port config.port (new_path "port" [])
      ++ validate_tls config.tls (new_path "tls" [])
      ++ validate_logging_rules config.logging_rules (new_path "loggingRules" [])
