-- ===== src/Validation/Patterns.antt =====
-- The regular expressions of rsyslog_relp.go, matched by hand over the characters of a text, and
-- the calls of other packages that the validation makes.
use Prim.Native.Char.{code}
use Prim.Native.String.{String, [], ◌∷◌}
use gardener_extension_shoot.Common.{
  ℕ, zero, suc, List, Text, Option, none, some, Bool, true, false, ◌&&◌, ◌||◌, ◌==◌, leb,
  if◌then◌else◌, codes,
}
use gardener_extension_shoot.Common
use gardener_extension_shoot.Go.Strings.{strip_prefix}
use gardener_extension_shoot.Field.{FieldPath, ErrorList}

-- k8s.io/apimachinery/pkg/util/validation: the messages of each check, none where it passes;
-- regexp.CompilePOSIX: its error, if any.
pub record Checker : Type 0 where
  pub is_valid_ip : FieldPath → String → ErrorList
  pub is_dns1123_subdomain : String → List String
  pub is_wildcard_dns1123_subdomain : String → List String
  pub compile_posix : Text → Option String

-- printableCharactersRegex `^[!-~]*$`
unfoldable pub is_printable_text : String → Bool
is_printable_text [] = true
is_printable_text (c ∷ s) = leb b'!' (code c) && leb (code c) b'~' && is_printable_text s

-- one of `[`, `:`, `/`
abbrev pub is_invalid_character : ℕ → Bool
is_invalid_character c = c == b'[' || c == b':' || c == b'/'

-- invalidCharactersForProgramNameRegex `[[:/]`, which may match anywhere
unfoldable pub has_invalid_character : String → Bool
has_invalid_character [] = false
has_invalid_character (c ∷ s) = is_invalid_character (code c) || has_invalid_character s

-- `[0-9A-Fa-f]`
abbrev pub is_hex : ℕ → Bool
is_hex c = (leb b'0' c && leb c b'9') || (leb b'A' c && leb c b'F') || (leb b'a' c && leb c b'f')

-- `[0-9A-Fa-f]{n}$`
unfoldable pub hex_run : ℕ → List ℕ → Bool
hex_run zero Common.[] = true
hex_run zero (Common.◌∷◌ c s) = false
hex_run (suc n) Common.[] = false
hex_run (suc n) (Common.◌∷◌ c s) = is_hex c && hex_run n s

abbrev pub hex_behind : ℕ → Option (List ℕ) → Bool
hex_behind n none = false
hex_behind n (some s) = hex_run n s

-- permittedPeerRegex `^SHA1:[0-9A-Fa-f]{40}$`
unfoldable pub is_sha1_peer : String → Bool
unfolding strip_prefix hex_run
is_sha1_peer s = hex_behind 40 (strip_prefix (codes "SHA1:") (codes s))
