-- ===== src/Validation/Matches.antt =====
-- What the matchers of the regular expressions accept.
use Prim.Native.String.{String, [], ◌∷◌}
use gardener_extension_shoot.Common
use gardener_extension_shoot.Common.{
  ℕ, zero, suc, List, Text, Option, none, some, Bool, true, false, ◌≤◌, ◌≡◌, ◌≢◌, ◌↔◌, ◌⊎◌, arith,
  codes, All, length, ◌++◌, refl, ap, sym, ◌∙◌, inl, inr, Bool-cases, ◌==◌,
}
use gardener_extension_shoot.Go.Strings.{strip_prefix, strip_prefix_sound, strip_prefix-append}
use gardener_extension_shoot.Validation.Patterns.{
  is_printable_text, has_invalid_character, is_hex, hex_run, is_sha1_peer, hex_behind,
}

-- `[!-~]`
abbrev pub IsPrintable : ℕ → Type 0
IsPrintable c = (b'!' ≤ c) × (c ≤ b'~')

-- not `[`, `:` or `/`
abbrev pub IsAllowed : ℕ → Type 0
IsAllowed c = (c ≢ b'[') × (c ≢ b':') × (c ≢ b'/')

abbrev pub IsHex : ℕ → Type 0
IsHex c = ((b'0' ≤ c) × (c ≤ b'9')) ⊎ ((b'A' ≤ c) × (c ≤ b'F')) ⊎ ((b'a' ≤ c) × (c ≤ b'f'))

pub is_printable_text_iff : (s : String) → (is_printable_text s ≡ true) ↔ All IsPrintable (codes s)
unfolding is_printable_text
is_printable_text_iff [] = (λ e. tt, λ h. refl)
is_printable_text_iff (c ∷ s) = ground (arith, is_printable_text_iff s)

pub has_invalid_character_iff :
    (s : String) → (has_invalid_character s ≡ false) ↔ All IsAllowed (codes s)
unfolding has_invalid_character
has_invalid_character_iff [] = (λ e. tt, λ h. refl)
has_invalid_character_iff (c ∷ s) = ground (arith, has_invalid_character_iff s)

is_hex_iff : (c : ℕ) → (is_hex c ≡ true) ↔ IsHex c
is_hex_iff c = ground arith

hex_run_iff : (n : ℕ) (s : Text) → (hex_run n s ≡ true) ↔ ((length s ≡ n) × All IsHex s)
unfolding hex_run
hex_run_iff zero Common.[] = (λ e. (refl, tt), λ h. refl)
hex_run_iff zero (Common.◌∷◌ c s) = (λ e. cc, λ h. absurd (omega arith))
hex_run_iff (suc n) Common.[] = (λ e. cc, λ h. absurd (omega arith))
hex_run_iff (suc n) (Common.◌∷◌ c s) = ground (arith, hex_run_iff n s, is_hex_iff c)

-- "SHA1:" and forty hexadecimal digits
pub record IsSha1Peer (s : String) : Type 0 where
  pub digits : Text
  pub spelled : codes s ≡ codes "SHA1:" ++ digits
  pub forty : length digits ≡ 40
  pub all_hex : All IsHex digits

IsSha1Peer-of_strip :
    (s : String) (o : Option Text)
    → strip_prefix (codes "SHA1:") (codes s) ≡ o
    → hex_behind 40 o ≡ true
    → IsSha1Peer s
IsSha1Peer-of_strip s none found e = cc
IsSha1Peer-of_strip s (some t) found e =
    let (forty, hex) = (hex_run_iff 40 t).0 e in
    record {
      digits = t;
      spelled = strip_prefix_sound (codes "SHA1:") (codes s) t found;
      forty = forty;
      all_hex = hex;
    }

hex_behind_of_IsSha1Peer :
    (s : String) → IsSha1Peer s → hex_behind 40 (strip_prefix (codes "SHA1:") (codes s)) ≡ true
hex_behind_of_IsSha1Peer s h =
    let stripped : strip_prefix (codes "SHA1:") (codes s) ≡ some h.digits =
      ap (strip_prefix (codes "SHA1:")) h.spelled ∙ strip_prefix-append (codes "SHA1:") h.digits in
    ap (hex_behind 40) stripped ∙ (hex_run_iff 40 h.digits).1 (h.forty, h.all_hex)

-- The matcher of `^SHA1:[0-9A-Fa-f]{40}$` accepts a text exactly if it is "SHA1:" followed by forty
-- hexadecimal digits.
pub is_sha1_peer_iff : (s : String) → (is_sha1_peer s ≡ true) ↔ IsSha1Peer s
unfolding is_sha1_peer
is_sha1_peer_iff s = (IsSha1Peer-of_strip s _ refl, hex_behind_of_IsSha1Peer s)
