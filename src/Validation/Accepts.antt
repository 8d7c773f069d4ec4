-- ===== src/Validation/Accepts.antt =====
-- The validation returns no error exactly for the accepted configurations.
use gardener_extension_shoot.Common.{
  String, ℕ, suc, List, [], ◌∷◌, ◌++◌, Option, none, some, Bool, true, false, ◌&&◌, eq_iff, ◌≡◌,
  ◌≢◌, ◌↔◌, ◌⊎◌, refl, arith, All, append-eq-nil_iff,
}
use gardener_extension_shoot.Common.Int.{ℤ, is_negative}
use gardener_extension_shoot.Api.{RsyslogRelpConfig, Tls, LoggingRule, MessageContent}
use gardener_extension_shoot.Field.{FieldPath, new_path, child, index, FieldError, ErrorList}
use gardener_extension_shoot.Go.Strconv.{Unicode}
use gardener_extension_shoot.Validation.Patterns.{Checker}
use gardener_extension_shoot.Validation.Matches.{
  is_printable_text_iff, has_invalid_character_iff, is_sha1_peer_iff,
}
use gardener_extension_shoot.Validation.{
  error_if, is_empty, is_nil, is_nil_or_empty, validate_port, not_supported_if,
  validate_secret_reference, validate_program_name, validate_program_names, validate_target,
  validate_permitted_peer, validate_permitted_peers, validate_tls, validate_regex, regex_errors,
  validate_message_content, validate_logging_rule, validate_rules_from, validate_logging_rules,
  validate_rsyslog_relp_config,
}
use gardener_extension_shoot.Validation.Accepted.{
  IsNamed, IsOneOf, IsProgramName, IsTarget, IsPeer, IsQuotedRegex, IsContent, IsRule, IsTlsGiven,
  IsAccepted,
}

error_if-eq-nil_iff : (b : Bool) (e : FieldError) → (error_if b e ≡ []) ↔ (b ≡ false)
error_if-eq-nil_iff b e = ground arith

is_empty_iff {ℓ} : {A : Type ℓ} (xs : List A) → (is_empty xs ≡ true) ↔ (xs ≡ [])
is_empty_iff [] = (λ e. refl, λ e. refl)
is_empty_iff (x ∷ xs) = (λ e. cc, λ e. cc)

-- `append` of error lists: no error comes of it exactly when none comes of any part.
module _ {P Q : Type 0} {xs ys : ErrorList} where
  both_nil_iff : (xs ≡ []) ↔ P → (ys ≡ []) ↔ Q → (xs ++ ys ≡ []) ↔ (P × Q)
  both_nil_iff p q = (
    λ e. let (ex, ey) = (append-eq-nil_iff xs ys).0 e in (p.0 ex, q.0 ey),
    λ h. (append-eq-nil_iff xs ys).1 (p.1 h.0, q.1 h.1),
  )

validate_program_name-eq-nil_iff :
    (name : String) (path : FieldPath) → (validate_program_name name path ≡ []) ↔ IsProgramName name
unfolding validate_program_name
validate_program_name-eq-nil_iff name path =
    ground (arith, eq_iff name "", is_printable_text_iff name, has_invalid_character_iff name)

validate_program_names-eq-nil_iff :
    (i : ℕ) (names : List String) (path : FieldPath)
    → (validate_program_names i names path ≡ []) ↔ All IsProgramName names
unfolding validate_program_names
validate_program_names-eq-nil_iff i [] path = (λ e. tt, λ h. refl)
validate_program_names-eq-nil_iff i (name ∷ names) path =
    both_nil_iff (validate_program_name-eq-nil_iff name _)
      (validate_program_names-eq-nil_iff (suc i) names path)

not_supported_if-eq-nil_iff :
    (a b : String) (s : Option String) (path : FieldPath)
    → (not_supported_if (a ∷ b ∷ []) s path ≡ []) ↔ IsOneOf b a s
unfolding not_supported_if
not_supported_if-eq-nil_iff a b none path = (λ e. tt, λ h. refl)
not_supported_if-eq-nil_iff a b (some s) path = ground (arith, eq_iff a s, eq_iff b s)

is_nil_or_empty_iff : (s : Option String) → (is_nil_or_empty s ≡ false) ↔ IsNamed s
is_nil_or_empty_iff none = (λ e. cc, λ h. absurd h)
is_nil_or_empty_iff (some s) = ground (arith, eq_iff s "")

false_if_iff : (b c : Bool) → ((b && c) ≡ false) ↔ (b ≡ true → c ≡ false)
false_if_iff true c = (λ e _. e, λ h. h refl)
false_if_iff false c = (λ e t. cc, λ h. refl)

validate_secret_reference-eq-nil_iff :
    (tls : Tls) (path : FieldPath)
    → (validate_secret_reference tls path ≡ [])
      ↔ (tls.enabled ≡ true → IsNamed tls.secret_reference_name)
unfolding validate_secret_reference
validate_secret_reference-eq-nil_iff tls path =
    let missing = is_nil_or_empty tls.secret_reference_name in
    let named = is_nil_or_empty_iff tls.secret_reference_name in
    let absent = error_if-eq-nil_iff (tls.enabled && missing) _ in
    let guarded = false_if_iff tls.enabled missing in
    (λ e on. named.0 (guarded.0 (absent.0 e) on), λ h. absent.1 (guarded.1 (λ on. named.1 (h on))))

no_regex_iff :
    (content : MessageContent) (e : FieldError)
    → (error_if (is_nil content.regex && is_nil content.exclude) e ≡ [])
      ↔ ((content.regex ≢ none) ⊎ (content.exclude ≢ none))
no_regex_iff content e = ground arith

no_condition_iff :
    (rule : LoggingRule) (e : FieldError)
    → (error_if
          (is_empty rule.program_names && is_nil rule.severity && is_nil rule.message_content)
          e
        ≡ [])
      ↔ ((rule.program_names ≢ []) ⊎ (rule.severity ≢ none) ⊎ (rule.message_content ≢ none))
no_condition_iff rule e = ground (arith, is_empty_iff rule.program_names)

module _ (unicode : Unicode) (checker : Checker) where
  validate_target-eq-nil_iff :
      (target : String)
      → (validate_target unicode checker target (new_path "target" []) ≡ [])
        ↔ IsTarget unicode checker target
  unfolding validate_target
  validate_target-eq-nil_iff target = ground (
    arith,
    eq_iff target "",
    is_empty_iff (checker.is_valid_ip (new_path "target" []) target),
    is_empty_iff (checker.is_dns1123_subdomain target),
  )

  validate_permitted_peer-eq-nil_iff :
      (peer : String) (path : FieldPath)
      → (validate_permitted_peer unicode checker peer path ≡ []) ↔ IsPeer unicode checker peer
  unfolding validate_permitted_peer
  validate_permitted_peer-eq-nil_iff peer path = ground (
    arith,
    eq_iff peer "",
    is_sha1_peer_iff peer,
    is_empty_iff (checker.is_wildcard_dns1123_subdomain peer),
    is_empty_iff (checker.is_dns1123_subdomain peer),
  )

  validate_permitted_peers-eq-nil_iff :
      (i : ℕ) (peers : List String) (path : FieldPath)
      → (validate_permitted_peers unicode checker i peers path ≡ [])
        ↔ All (IsPeer unicode checker) peers
  unfolding validate_permitted_peers
  validate_permitted_peers-eq-nil_iff i [] path = (λ e. tt, λ h. refl)
  validate_permitted_peers-eq-nil_iff i (peer ∷ peers) path =
      both_nil_iff (validate_permitted_peer-eq-nil_iff peer _)
        (validate_permitted_peers-eq-nil_iff (suc i) peers path)

  validate_tls-eq-nil_iff :
      (tls : Option Tls) (path : FieldPath)
      → (validate_tls unicode checker tls path ≡ []) ↔ IsTlsGiven unicode checker tls
  unfolding validate_tls
  validate_tls-eq-nil_iff none path = (λ e. tt, λ h. refl)
  validate_tls-eq-nil_iff (some tls) path =
      let parts =
        both_nil_iff
          (both_nil_iff
            (both_nil_iff (validate_secret_reference-eq-nil_iff tls path)
              (not_supported_if-eq-nil_iff _ _ tls.auth_mode (child path "authMode")))
            (not_supported_if-eq-nil_iff _ _ tls.tls_lib (child path "tlsLib")))
          (validate_permitted_peers-eq-nil_iff 0 tls.permitted_peer (child path "permittedPeer")) in
      (
        λ e.
            let (((secret, mode), lib), peers) = parts.0 e in
            record { secret = secret; auth_mode = mode; tls_lib = lib; peers = peers },
        λ h. parts.1 (((h.secret, h.auth_mode), h.tls_lib), h.peers),
      )

  regex_errors-eq-nil_iff :
      (regex : Option String) (path : FieldPath)
      → (regex_errors unicode checker (validate_regex unicode checker regex) path ≡ [])
        ↔ IsQuotedRegex unicode checker regex
  unfolding validate_regex
  regex_errors-eq-nil_iff none path = (λ e. tt, λ h. refl)
  regex_errors-eq-nil_iff (some regex) path = ground arith

  validate_message_content-eq-nil_iff :
      (content : Option MessageContent) (path : FieldPath)
      → (validate_message_content unicode checker content path ≡ [])
        ↔ IsContent unicode checker content
  unfolding validate_message_content
  validate_message_content-eq-nil_iff none path = (λ e. tt, λ h. refl)
  validate_message_content-eq-nil_iff (some content) path =
      let parts =
        both_nil_iff
          (both_nil_iff (no_regex_iff content _)
            (regex_errors-eq-nil_iff content.regex (child (child path "messageContent") "regex")))
          (regex_errors-eq-nil_iff content.exclude
            (child (child path "messageContent") "exclude")) in
      (
        λ e.
            let ((one, regex), exclude) = parts.0 e in
            record { some_regex = one; regex = regex; exclude = exclude },
        λ h. parts.1 ((h.some_regex, h.regex), h.exclude),
      )

  validate_logging_rule-eq-nil_iff :
      (rule : LoggingRule) (i : ℕ) (path : FieldPath)
      → (validate_logging_rule unicode checker rule i path ≡ []) ↔ IsRule unicode checker rule
  unfolding validate_logging_rule
  validate_logging_rule-eq-nil_iff rule i path =
      let parts =
        both_nil_iff
          (both_nil_iff (no_condition_iff rule _)
            (validate_program_names-eq-nil_iff 0 rule.program_names (child path "programNames")))
          (validate_message_content-eq-nil_iff rule.message_content (index path i)) in
      (
        λ e.
            let ((one, names), content) = parts.0 e in
            record { some_condition = one; program_names = names; content = content },
        λ h. parts.1 ((h.some_condition, h.program_names), h.content),
      )

  validate_rules_from-eq-nil_iff :
      (i : ℕ) (rules : List LoggingRule) (path : FieldPath)
      → (validate_rules_from unicode checker i rules path ≡ []) ↔ All (IsRule unicode checker) rules
  unfolding validate_rules_from
  validate_rules_from-eq-nil_iff i [] path = (λ e. tt, λ h. refl)
  validate_rules_from-eq-nil_iff i (rule ∷ rules) path =
      both_nil_iff (validate_logging_rule-eq-nil_iff rule i path)
        (validate_rules_from-eq-nil_iff (suc i) rules path)

  validate_logging_rules-eq-nil_iff :
      (rules : List LoggingRule) (path : FieldPath)
      → (validate_logging_rules unicode checker rules path ≡ [])
        ↔ ((rules ≢ []) × All (IsRule unicode checker) rules)
  unfolding validate_logging_rules
  validate_logging_rules-eq-nil_iff [] path = (λ e. cc, λ h. absurd (h.0 refl))
  validate_logging_rules-eq-nil_iff (rule ∷ rules) path =
      let all = validate_rules_from-eq-nil_iff 0 (rule ∷ rules) path in
      (λ e. (λ empty. cc, all.0 e), λ h. all.1 h.1)

  validate_port-eq-nil_iff :
      (port : ℤ) (path : FieldPath) → (validate_port port path ≡ []) ↔ (is_negative port ≡ false)
  unfolding validate_port
  validate_port-eq-nil_iff port path = error_if-eq-nil_iff _ _

  -- The validation returns no error exactly for the accepted configurations: the target is an address
  -- or a subdomain, the port is not negative, an enabled TLS configuration names its secret, mode,
  -- library and peers are among those that there are, there is a rule, and each rule has a condition,
  -- valid program names, and a regex or an exclude, where it has message content, that both compile
  -- once they are quoted. The audit configuration may be any.
  pub validate-eq-nil_iff :
      (config : RsyslogRelpConfig) (path : FieldPath)
      → (validate_rsyslog_relp_config unicode checker config path ≡ [])
        ↔ IsAccepted unicode checker config
  unfolding validate_rsyslog_relp_config
  validate-eq-nil_iff config path =
      let parts =
        both_nil_iff
          (both_nil_iff
            (both_nil_iff (validate_target-eq-nil_iff config.target)
              (validate_port-eq-nil_iff config.port (new_path "port" [])))
            (validate_tls-eq-nil_iff config.tls (new_path "tls" [])))
          (validate_logging_rules-eq-nil_iff config.logging_rules (new_path "loggingRules" [])) in
      (
        λ e.
            let (((target, port), tls), rules) = parts.0 e in
            record {
              target = target;
              port = port;
              tls = tls;
              some_rule = rules.0;
              rules = rules.1;
            },
        λ h. parts.1 (((h.target, h.port), h.tls), (h.some_rule, h.rules)),
      )
