-- ===== src/Go/Strconv/Reader.antt =====
-- A reader of quoted texts, as an independent description of what strconv.Quote prints.
use gardener_extension_shoot.Common.{
  ℕ, zero, suc, ◌+◌, ◌-◌, ◌*◌, ◌&&◌, ◌||◌, ◌==◌, leb, if◌then◌else◌, [], ◌∷◌, Option, none, some,
  Text,
}

-- What the reader expects: any character, the one behind a backslash, or hexadecimal digits, with
-- the value of those read.
pub data Mode : Type 0 where
  plain : Mode
  escaped : Mode
  hex : ℕ → ℕ → Mode

-- the characters read, and those behind the closing quote
abbrev pub Read : Type 0
Read = Option (Text × Text)

abbrev pub put : ℕ → Read → Read
put c none = none
put c (some (cs, rest)) = some (c ∷ cs, rest)

unfoldable pub hex_value : ℕ → Option ℕ
hex_value c =
    if leb b'0' c && leb c b'9'
    then some (c - 48)
    else if leb b'a' c && leb c b'f'
    then some (c - 87)
    else none

-- the mode behind `\c` for a hexadecimal escape
unfoldable pub hex_mode : ℕ → Option Mode
hex_mode c =
    if c == b'x'
    then some (hex 2 0)
    else if c == b'u'
    then some (hex 4 0)
    else if c == b'U'
    then some (hex 8 0)
    else none

-- the character that `\c` stands for
unfoldable pub simple_escape : ℕ → Option ℕ
simple_escape c =
    if c == b'a'
    then some 7
    else if c == b'b'
    then some 8
    else if c == b'f'
    then some 12
    else if c == b'n'
    then some 10
    else if c == b'r'
    then some 13
    else if c == b't'
    then some 9
    else if c == b'v'
    then some 11
    else if c == b'\\' || c == b'"'
    then some c
    else none

unfoldable pub read : Mode → Text → Read
read mode [] = none
read plain (c ∷ s) =
    let closed : Read = some ([], s) in
    let behind = read escaped s in
    let more = put c (read plain s) in
    if c == b'"' then closed else if c == b'\\' then behind else more
read escaped (c ∷ s) = elim (hex_mode c) [
  | some mode ↦ read mode s
  | none ↦ elim (simple_escape c) [ some d ↦ put d (read plain s) | none ↦ none ]
]
read (hex zero v) (c ∷ s) = none
read (hex (suc zero) v) (c ∷ s) = elim (hex_value c) [
  | some d ↦ put (v * 16 + d) (read plain s)
  | none ↦ none
]
read (hex (suc (suc k)) v) (c ∷ s) = elim (hex_value c) [
  | some d ↦ read (hex (suc k) (v * 16 + d)) s
  | none ↦ none
]

-- The text behind an opening quote: its characters and the rest.
unfoldable pub unquote_before : Text → Read
unfolding read hex_value hex_mode simple_escape
unquote_before [] = none
unquote_before (c ∷ s) = if c == b'"' then read plain s else none
