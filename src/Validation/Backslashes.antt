-- ===== src/Validation/Backslashes.antt =====
-- Regexes with backslashes, which are quoted before they are compiled.
use gardener_extension_shoot.Common.{
  String, ℕ, [], ◌∷◌, none, some, ◌≤◌, ◌≡◌, ◌⊎◌, inl, inr, refl, All, Text, codes, arith,
}
use gardener_extension_shoot.Api.{MessageContent}
use gardener_extension_shoot.Field.{FieldPath}
use gardener_extension_shoot.Go.Strconv.{Unicode, is_print, escape, escape_all, quote_before, quote}
use gardener_extension_shoot.Validation.Patterns.{Checker}
use gardener_extension_shoot.Validation.{validate_regex, validate_message_content}

-- a letter, a digit or a space
abbrev pub IsPlain : ℕ → Type 0
IsPlain c =
    (c ≡ b' ') ⊎ ((b'0' ≤ c) × (c ≤ b'9')) ⊎ ((b'A' ≤ c) × (c ≤ b'Z')) ⊎ ((b'a' ≤ c) × (c ≤ b'z'))

abbrev pub IsPlainOrBackslash : ℕ → Type 0
IsPlainOrBackslash c = IsPlain c ⊎ (c ≡ b'\\')

-- Characters that stand for themselves, and escaped backslashes.
pub data IsLiteral : Text → Type 0 where
  nothing : IsLiteral []
  plain : (c : ℕ) (t : Text) → IsPlain c ⊎ (c ≡ b'"') → IsLiteral t → IsLiteral (c ∷ t)
  backslash : (t : Text) → IsLiteral t → IsLiteral (b'\\' ∷ b'\\' ∷ t)

module _ (unicode : Unicode) where
  escape_plain : (c : ℕ) (t : Text) → IsPlain c → escape unicode c t ≡ c ∷ t
  unfolding escape is_print
  escape_plain c t h = ground arith

  escape_backslash : (c : ℕ) (t : Text) → c ≡ b'\\' → escape unicode c t ≡ b'\\' ∷ b'\\' ∷ t
  unfolding escape
  escape_backslash c t same = rw same refl

  escape-IsLiteral :
      (c : ℕ) (t : Text) → IsPlainOrBackslash c → IsLiteral t → IsLiteral (escape unicode c t)
  escape-IsLiteral c t (inl h) literal = rw (escape_plain c t h) (plain c t (inl h) literal)
  escape-IsLiteral c t (inr h) literal = rw (escape_backslash c t h) (backslash t literal)

  escape_all-IsLiteral :
      (s end : Text)
      → All IsPlainOrBackslash s
      → IsLiteral end
      → IsLiteral (escape_all unicode s end)
  unfolding escape_all
  escape_all-IsLiteral [] end h literal = literal
  escape_all-IsLiteral (c ∷ s) end h literal =
      escape-IsLiteral c (escape_all unicode s end) h.0 (escape_all-IsLiteral s end h.1 literal)

  quote-IsLiteral : (s : String) → All IsPlainOrBackslash (codes s) → IsLiteral (quote unicode s)
  unfolding quote quote_before
  quote-IsLiteral s h =
      plain b'"' _ (inr refl)
        (escape_all-IsLiteral (codes s) (b'"' ∷ []) h (plain b'"' [] (inr refl) nothing))

  -- A regex of letters, digits, spaces and backslashes passes the validation, wherever the
  -- backslashes stand, also a single one at the end. The compiler must accept literal characters and
  -- escaped backslashes.
  pub validate_message_content-backslashes :
      (checker : Checker)
      → ((t : Text) → IsLiteral t → checker.compile_posix t ≡ none)
      → (s : String) (path : FieldPath) → All IsPlainOrBackslash (codes s)
      → let content : MessageContent = record { regex = some s; exclude = none } in
        validate_message_content unicode checker (some content) path ≡ []
  unfolding validate_message_content validate_regex
  validate_message_content-backslashes checker compiles s path h =
      rw (compiles (quote unicode s) (quote-IsLiteral s h)) refl
