-- ===== src/Go/Strconv.antt =====
-- strconv.Quote, and the decimal print of an `int` that `%d` makes. A text that the code builds is
-- the list of its code points; a printer puts its output in front of a text.
pub mod Reader
pub mod Unquote
pub mod Prefix
pub mod Decimal
use gardener_extension_shoot.Common.{
  String, ℕ, ◌+◌, ◌/◌, ◌%◌, Bool, ◌&&◌, ◌||◌, not, ◌==◌, ltb, leb, if◌then◌else◌, List, [], ◌∷◌,
  codes, Text,
}

-- strconv.IsPrint on the characters above 0xFF, which Go reads from a table.
pub record Unicode : Type 0 where
  pub is_print_wide : ℕ → Bool

-- one hexadecimal digit, lower case
abbrev pub hex_digit : ℕ → ℕ
hex_digit n = if ltb n 10 then 48 + n else 87 + n

-- the digits of `\xNN`, `\uNNNN` and `\UNNNNNNNN`
abbrev pub hex2 : ℕ → Text → Text
hex2 r s = hex_digit (r / 16 % 16) ∷ hex_digit (r % 16) ∷ s

abbrev pub hex4 : ℕ → Text → Text
hex4 r s = hex2 (r / 256) (hex2 r s)

abbrev pub hex8 : ℕ → Text → Text
hex8 r s = hex4 (r / 65536) (hex4 r s)

module _ (unicode : Unicode) where
  unfoldable pub is_print : ℕ → Bool
  is_print r =
      if leb r 255
      then (leb 32 r && ltb r 127) || (leb 161 r && not (r == 173))
      else unicode.is_print_wide r

  -- strconv.appendEscapedRune
  unfoldable pub escape : ℕ → Text → Text
  escape r s =
      if r == b'"' || r == b'\\'
      then b'\\' ∷ r ∷ s
      else if is_print r
      then r ∷ s
      else if r == 7
      then b'\\' ∷ b'a' ∷ s
      else if r == 8
      then b'\\' ∷ b'b' ∷ s
      else if r == 12
      then b'\\' ∷ b'f' ∷ s
      else if r == 10
      then b'\\' ∷ b'n' ∷ s
      else if r == 13
      then b'\\' ∷ b'r' ∷ s
      else if r == 9
      then b'\\' ∷ b't' ∷ s
      else if r == 11
      then b'\\' ∷ b'v' ∷ s
      else if ltb r 32 || r == 127
      then b'\\' ∷ b'x' ∷ hex2 r s
      else if ltb r 65536
      then b'\\' ∷ b'u' ∷ hex4 r s
      else b'\\' ∷ b'U' ∷ hex8 r s

  unfoldable pub escape_all : Text → Text → Text
  unfolding escape is_print
  escape_all [] end = end
  escape_all (r ∷ s) end = escape r (escape_all s end)

  -- strconv.Quote, in front of a text
  unfoldable pub quote_before : String → Text → Text
  unfolding escape_all
  quote_before s end = b'"' ∷ escape_all (codes s) (b'"' ∷ end)

  unfoldable pub quote : String → Text
  unfolding quote_before
  quote s = quote_before s []
