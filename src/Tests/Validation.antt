-- ===== src/Tests/Validation.antt =====
-- The validation of a configuration.
use gardener_extension_shoot.Common.{
  String, Text, codes, [], ◌∷◌, Option, none, some, Bool, true, false, ◌==◌, ◌≡◌, ◌↔◌, refl, arith,
}
use gardener_extension_shoot.Api.{LoggingRule}
use gardener_extension_shoot.Field.{new_path, index, text, invalid}
use gardener_extension_shoot.Validation.{
  validate_rsyslog_relp_config, validate_logging_rules, validate_program_names,
  validate_message_content,
}
use gardener_extension_shoot.Validation.Patterns.{Checker, is_sha1_peer}
use gardener_extension_shoot.Validation.Matches.{IsSha1Peer, is_sha1_peer_iff}
use gardener_extension_shoot.Validation.Accepted.{IsAccepted}
use gardener_extension_shoot.Validation.Accepts.{validate-eq-nil_iff}
use gardener_extension_shoot.Validation.Backslashes.{
  IsLiteral, nothing, plain, backslash, validate_message_content-backslashes,
}
use gardener_extension_shoot.Validation.Errors.{
  IsAt, name_path, IsInvalidInOne, validate_logging_rules-IsAt_iff,
}
use gardener_extension_shoot.Tests.Data.{latin, checker, config, audit_rule, validation}

abbrev peer : String
peer = "SHA1:0123456789abcdefABCD0123456789abcdefABCD"

sha1_tests : (is_sha1_peer peer ≡ true) × (is_sha1_peer "SHA1:01:23" ≡ false)
unfolding is_sha1_peer
sha1_tests = (refl, refl)

bad_name :
    validate_program_names 0 ("a:b" ∷ []) (new_path "p" [])
    ≡ invalid (index (new_path "p" []) 0) (text "a:b") ".programNames can't contain `[`, `:` or `/`"
      ∷ []
unfolding validate_program_names validation
bad_name = refl

-- a rule whose second name is not valid
abbrev bad_rule : LoggingRule
bad_rule = record audit_rule { program_names = "sshd" ∷ "a:b" ∷ [] }

is_sha1_peer_example : (is_sha1_peer peer ≡ true) ↔ IsSha1Peer peer
is_sha1_peer_example = is_sha1_peer_iff peer

validate-eq-nil_example :
    (validate_rsyslog_relp_config latin checker config (new_path "x" []) ≡ [])
    ↔ IsAccepted latin checker config
validate-eq-nil_example = validate-eq-nil_iff latin checker config (new_path "x" [])

validate_logging_rules-IsAt_example :
    IsAt (name_path (new_path "loggingRules" []) 1) (
      validate_logging_rules latin checker
        (audit_rule ∷ bad_rule ∷ [])
        (new_path "loggingRules" []))
    ↔ IsInvalidInOne (audit_rule ∷ bad_rule ∷ []) 1
validate_logging_rules-IsAt_example =
    validate_logging_rules-IsAt_iff latin checker (audit_rule ∷ bad_rule ∷ [])
      (new_path "loggingRules" []) 1

-- the error of an expression that ends inside an escape
escape_error : Bool → Text → Option String
escape_error true [] = some "trailing backslash"
escape_error false [] = none
escape_error true (c ∷ t) = escape_error false t
escape_error false (c ∷ t) = escape_error (c == b'\\') t

abbrev escape_checker : Checker
escape_checker = record checker { compile_posix = escape_error false }

escape_error-literal : (t : Text) → IsLiteral t → escape_error false t ≡ none
unfolding escape_error
escape_error-literal _ nothing = refl
escape_error-literal _ (plain c t h literal) = ground (arith, escape_error-literal t literal)
escape_error-literal _ (backslash t literal) = escape_error-literal t literal

-- a text that is no expression by this checker
trailing : escape_checker.compile_posix (codes "foo\\") ≡ some "trailing backslash"
unfolding escape_error
trailing = refl

validate_message_content-backslashes_example :
    validate_message_content latin escape_checker
      (some (record { regex = some "foo\\"; exclude = none }))
      (new_path "x" [])
    ≡ []
validate_message_content-backslashes_example =
    validate_message_content-backslashes latin escape_checker escape_error-literal "foo\\"
      (new_path "x" []) (ground arith)
