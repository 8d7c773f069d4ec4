-- ===== src/Validation/Errors.antt =====
-- Which part of a configuration the errors name, and the errors of ValidateAuditd.
use gardener_extension_shoot.Common.{
  String, ℕ, zero, suc, ◌+◌, ◌<◌, List, [], ◌∷◌, ◌++◌, Option, none, some, Bool, true, false, ◌≡◌,
  ◌≢◌, ◌↔◌, ◌⊎◌, inl, inr, ap, arith, eq_iff,
}
use gardener_extension_shoot.Api.{LoggingRule, MessageContent, Auditd}
use gardener_extension_shoot.Field.{
  FieldPath, new_path, child, index, FieldError, required, invalid, not_supported, ErrorList,
}
use gardener_extension_shoot.Go.Strconv.{Unicode}
use gardener_extension_shoot.Validation.Patterns.{Checker}
use gardener_extension_shoot.Validation.Matches.{is_printable_text_iff, has_invalid_character_iff}
use gardener_extension_shoot.Validation.Accepted.{IsProgramName}
use gardener_extension_shoot.Validation.{
  error_if, validate_program_name, validate_program_names, validate_message_content, validate_regex,
  regex_errors, validate_logging_rule, validate_rules_from, validate_logging_rules, validate_auditd,
}

abbrev pub path_of : FieldError → FieldPath
path_of (required path detail) = path
path_of (invalid path value detail) = path
path_of (not_supported path value available) = path

-- One of the errors has the path.
abbrev pub IsAt : FieldPath → ErrorList → Type 0
IsAt path [] = ⊥
IsAt path (e ∷ es) = (path ≡ path_of e) ⊎ IsAt path es

-- The program name with the number is not a valid one.
abbrev pub IsInvalidAt : List String → ℕ → Type 0
IsInvalidAt [] j = ⊥
IsInvalidAt (name ∷ names) zero = IsProgramName name → ⊥
IsInvalidAt (name ∷ names) (suc j) = IsInvalidAt names j

-- So it is in one of the rules.
abbrev pub IsInvalidInOne : List LoggingRule → ℕ → Type 0
IsInvalidInOne [] j = ⊥
IsInvalidInOne (rule ∷ rules) j = IsInvalidAt rule.program_names j ⊎ IsInvalidInOne rules j

IsAt-append_iff :
    (path : FieldPath) (xs ys : ErrorList) → IsAt path (xs ++ ys) ↔ (IsAt path xs ⊎ IsAt path ys)
IsAt-append_iff path [] ys = (λ h. inr h, λ h. elim h [ inl x ↦ absurd x | inr y ↦ y ])
IsAt-append_iff path (e ∷ xs) ys =
    let rest = IsAt-append_iff path xs ys in
    (
      λ h. elim h [
        | inl here ↦ inl (inl here)
        | inr later ↦ elim (rest.0 later) [ inl x ↦ inl (inr x) | inr y ↦ inr y ]
      ],
      λ h. elim h [
        | inl x ↦ elim x [ inl here ↦ inl here | inr later ↦ inr (rest.1 (inl later)) ]
        | inr y ↦ inr (rest.1 (inr y))
      ],
    )

-- the length of a path, by which it differs from those below it
depth : FieldPath → ℕ
depth (new_path name more) = 0
depth (child path name) = suc (depth path)
depth (index path i) = suc (depth path)

abbrev pub name_path : FieldPath → ℕ → FieldPath
name_path path j = index (child path "programNames") j

name_path-ne : (path : FieldPath) (j : ℕ) → name_path path j ≢ path
unfolding depth
name_path-ne path j e = absurd (omega (arith, ap depth e))

name_path-ne-index : (path : FieldPath) (i j : ℕ) → name_path path j ≢ index path i
unfolding depth
name_path-ne-index path i j e = absurd (omega (arith, ap depth e))

validate_program_name-IsAt_iff :
    (name : String) (q path : FieldPath)
    → IsAt q (validate_program_name name path) ↔ ((q ≡ path) × (IsProgramName name → ⊥))
unfolding validate_program_name
validate_program_name-IsAt_iff name q path =
    ground (arith, eq_iff name "", is_printable_text_iff name, has_invalid_character_iff name)

index_inj : (path : FieldPath) (i j : ℕ) → index path i ≡ index path j → i ≡ j
index_inj path i j e = cc

-- The errors from a number on are at no number before it.
validate_program_names-at_before :
    (i k : ℕ) (names : List String) (path : FieldPath)
    → k < i
    → IsAt (index path k) (validate_program_names i names path)
    → ⊥
unfolding validate_program_names
validate_program_names-at_before i k [] path lt h = h
validate_program_names-at_before i k (name ∷ names) path lt h =
    elim ((IsAt-append_iff (index path k) _ _).0 h) [
      | inl here ↦
          let (same, bad) =
            (validate_program_name-IsAt_iff name (index path k) (index path i)).0 here in
          absurd (omega (arith, index_inj path k i same))
      | inr later ↦ validate_program_names-at_before (suc i) k names path (omega arith) later
    ]

validate_program_names-IsAt_iff :
    (i j : ℕ) (names : List String) (path : FieldPath)
    → IsAt (index path (i + j)) (validate_program_names i names path) ↔ IsInvalidAt names j
unfolding validate_program_names
validate_program_names-IsAt_iff i j [] path = (λ h. h, λ h. h)
validate_program_names-IsAt_iff i zero (name ∷ names) path =
    let parts =
      IsAt-append_iff (index path (i + 0)) (validate_program_name name (index path i)) _ in
    let own = validate_program_name-IsAt_iff name (index path (i + 0)) (index path i) in
    (
      λ h. elim (parts.0 h) [
        | inl here ↦ (own.0 here).1
        | inr later ↦
            absurd (validate_program_names-at_before (suc i) (i + 0) names path (omega arith) later)
      ],
      λ bad. parts.1 (inl (own.1 (ap (index path) (omega arith), bad))),
    )
validate_program_names-IsAt_iff i (suc j) (name ∷ names) path =
    let place : i + suc j ≡ suc i + j = omega arith in
    let parts =
      IsAt-append_iff (index path (i + suc j)) (validate_program_name name (index path i)) _ in
    let own = validate_program_name-IsAt_iff name (index path (i + suc j)) (index path i) in
    let rest = validate_program_names-IsAt_iff (suc i) j names path in
    (
      λ h. elim (parts.0 h) [
        | inl here ↦ absurd (omega (arith, index_inj path (i + suc j) i (own.0 here).0))
        | inr later ↦ rest.0 (rw place at later)
      ],
      λ bad. parts.1 (inr (rw place (rest.1 bad))),
    )

append-not_at :
    (q : FieldPath) (xs ys : ErrorList) → (IsAt q xs → ⊥) → (IsAt q ys → ⊥) → IsAt q (xs ++ ys) → ⊥
append-not_at q xs ys not_x not_y h = elim ((IsAt-append_iff q xs ys).0 h) [
  | inl x ↦ not_x x
  | inr y ↦ not_y y
]

index-ne-child :
    (base : FieldPath) (j : ℕ) (path : FieldPath) (name : String) → index base j ≢ child path name
index-ne-child base j path name = λ e. cc

-- `error_if` with an error at another path
error_if-not_at :
    (q : FieldPath) (b : Bool) (e : FieldError) → q ≢ path_of e → IsAt q (error_if b e) → ⊥
error_if-not_at q true e differ (inl same) = differ same
error_if-not_at q true e differ (inr none_left) = none_left
error_if-not_at q false e differ h = h

module _ (unicode : Unicode) (checker : Checker) where
  regex_errors-not_at :
      (error : Option String) (path q : FieldPath)
      → q ≢ path
      → IsAt q (regex_errors unicode checker error path)
      → ⊥
  regex_errors-not_at none path q differ h = h
  regex_errors-not_at (some e) path q differ (inl same) = differ same
  regex_errors-not_at (some e) path q differ (inr none_left) = none_left

  validate_message_content-not_at :
      (content : Option MessageContent) (path base : FieldPath) (j : ℕ)
      → IsAt (index base j) (validate_message_content unicode checker content path)
      → ⊥
  unfolding validate_message_content
  validate_message_content-not_at none path base j h = h
  validate_message_content-not_at (some content) path base j h =
      let q = index base j in
      let below = child path "messageContent" in
      append-not_at q _ _
        (append-not_at q _ _ (error_if-not_at q _ _ (index-ne-child base j path "messageContent")) (
          regex_errors-not_at (validate_regex unicode checker content.regex) (child below "regex") q
            (index-ne-child base j below "regex")))
        (regex_errors-not_at (validate_regex unicode checker content.exclude)
          (child below "exclude") q (index-ne-child base j below "exclude"))
        h

  validate_logging_rule-IsAt_iff :
      (rule : LoggingRule) (i j : ℕ) (path : FieldPath)
      → IsAt (name_path path j) (validate_logging_rule unicode checker rule i path)
        ↔ IsInvalidAt rule.program_names j
  unfolding validate_logging_rule
  validate_logging_rule-IsAt_iff rule i j path =
      let start : 0 + j ≡ j = omega arith in
      let outer = IsAt-append_iff (name_path path j) _ _ in
      let inner = IsAt-append_iff (name_path path j) _ _ in
      let names =
        rw start at
          (validate_program_names-IsAt_iff 0 j rule.program_names (child path "programNames")) in
      (
        λ h. elim (outer.0 h) [
          | inl front ↦ elim (inner.0 front) [
            | inl condition ↦
                absurd
                  (error_if-not_at (name_path path j) _ _ (name_path-ne-index path i j) condition)
            | inr own ↦ names.0 own
          ]
          | inr content ↦ absurd (
              validate_message_content-not_at rule.message_content (index path i)
                (child path "programNames") j content)
        ],
        λ bad. outer.1 (inl (inner.1 (inr (names.1 bad)))),
      )

  validate_rules_from-IsAt_iff :
      (i j : ℕ) (rules : List LoggingRule) (path : FieldPath)
      → IsAt (name_path path j) (validate_rules_from unicode checker i rules path)
        ↔ IsInvalidInOne rules j
  unfolding validate_rules_from
  validate_rules_from-IsAt_iff i j [] path = (λ h. h, λ h. h)
  validate_rules_from-IsAt_iff i j (rule ∷ rules) path =
      let parts = IsAt-append_iff (name_path path j) _ _ in
      let own = validate_logging_rule-IsAt_iff rule i j path in
      let rest = validate_rules_from-IsAt_iff (suc i) j rules path in
      (
        λ h. elim (parts.0 h) [ inl here ↦ inl (own.0 here) | inr later ↦ inr (rest.0 later) ],
        λ h. elim h [
          | inl here ↦ parts.1 (inl (own.1 here))
          | inr later ↦ parts.1 (inr (rest.1 later))
        ],
      )

  -- The validation of the logging rules has an error at programNames[j] below the path of the list
  -- exactly if in some rule the program name with the number j is not valid. The path has no index of
  -- a rule, so that the errors do not tell the rules apart.
  pub validate_logging_rules-IsAt_iff :
      (rules : List LoggingRule) (path : FieldPath) (j : ℕ)
      → IsAt (name_path path j) (validate_logging_rules unicode checker rules path)
        ↔ IsInvalidInOne rules j
  unfolding validate_logging_rules
  validate_logging_rules-IsAt_iff [] path j =
      (λ h. elim h [ inl e ↦ absurd (name_path-ne path j e) | inr e ↦ e ], λ h. absurd h)
  validate_logging_rules-IsAt_iff (rule ∷ rules) path j =
      validate_rules_from-IsAt_iff 0 j (rule ∷ rules) path

-- ValidateAuditd returns no error exactly when the rules are not empty.
pub validate_auditd-eq-nil_iff :
    (auditd : Auditd) → (validate_auditd auditd ≡ []) ↔ (auditd.audit_rules ≢ "")
unfolding validate_auditd
validate_auditd-eq-nil_iff auditd = ground (arith, eq_iff auditd.audit_rules "")
