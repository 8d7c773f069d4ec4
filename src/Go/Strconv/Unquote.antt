-- ===== src/Go/Strconv/Unquote.antt =====
-- What `quote` prints is read back by the reader of quoted texts, whatever stands behind it.
use Prim.Native.Char.{char, IsScalar}
use gardener_extension_shoot.Common.{
  String, ℕ, suc, ◌+◌, ◌*◌, ◌/◌, ◌%◌, ◌<◌, ◌||◌, ◌==◌, [], ◌∷◌, some, codes, Text, ◌≡◌, ◌∙◌, ap,
  subst, sym, refl, arith, All, Bool-cases, inl, inr, true, false, ◌++◌, append-nil,
}
use gardener_extension_shoot.Go.Strconv.{
  Unicode, hex_digit, hex2, hex4, hex8, escape, escape_all, quote_before,
}
use gardener_extension_shoot.Go.Strconv.Reader.{
  plain, hex, Read, put, hex_value, hex_mode, simple_escape, read, unquote_before,
}

hex_value-hex_digit : (n : ℕ) → n < 16 → hex_value (hex_digit n) ≡ some n
unfolding hex_value
hex_value-hex_digit n h = ground arith

-- One digit, and the last one.
read-hex_digit :
    (k v n : ℕ) (s : Text)
    → n < 16
    → read (hex (suc (suc k)) v) (hex_digit n ∷ s) ≡ read (hex (suc k) (v * 16 + n)) s
unfolding read
read-hex_digit k v n s h = rw (read, hex_value-hex_digit n h)

read_last :
    (v n : ℕ) (s : Text)
    → n < 16
    → read (hex 1 v) (hex_digit n ∷ s) ≡ put (v * 16 + n) (read plain s)
unfolding read
read_last v n s h = rw (read, hex_value-hex_digit n h)

-- the value behind two more digits
abbrev hex2_value : ℕ → ℕ → ℕ
hex2_value v r = (v * 16 + r / 16 % 16) * 16 + r % 16

read-hex2_more :
    (k v r : ℕ) (s : Text)
    → read (hex (suc (suc (suc k))) v) (hex2 r s) ≡ read (hex (suc k) (hex2_value v r)) s
read-hex2_more k v r s =
    read-hex_digit (suc k) v (r / 16 % 16) _ (omega arith)
    ∙ read-hex_digit k _ (r % 16) s (omega arith)

read-hex2_last :
    (v r : ℕ) (s : Text) → read (hex 2 v) (hex2 r s) ≡ put (hex2_value v r) (read plain s)
read-hex2_last v r s =
    read-hex_digit 0 v (r / 16 % 16) _ (omega arith) ∙ read_last _ (r % 16) s (omega arith)

abbrev hex4_value : ℕ → ℕ → ℕ
hex4_value v r = hex2_value (hex2_value v (r / 256)) r

read-hex4_last :
    (v r : ℕ) (s : Text) → read (hex 4 v) (hex4 r s) ≡ put (hex4_value v r) (read plain s)
read-hex4_last v r s = read-hex2_more 1 v (r / 256) _ ∙ read-hex2_last _ r s

read-hex2 : (r : ℕ) (s : Text) → r < 256 → read (hex 2 0) (hex2 r s) ≡ put r (read plain s)
read-hex2 r s h =
    let value : hex2_value 0 r ≡ r = omega arith in
    read-hex2_last 0 r s ∙ ap (λ v. put v (read plain s)) value

hex4_value-eq : (v r : ℕ) → hex4_value v r ≡ v * 65536 + r % 65536
hex4_value-eq v r = omega arith

read-hex4 : (r : ℕ) (s : Text) → r < 65536 → read (hex 4 0) (hex4 r s) ≡ put r (read plain s)
read-hex4 r s h =
    let value : hex4_value 0 r ≡ r = omega (arith, hex4_value-eq 0 r) in
    read-hex4_last 0 r s ∙ ap (λ v. put v (read plain s)) value

read-hex8 : (r : ℕ) (s : Text) → r < 1114112 → read (hex 8 0) (hex8 r s) ≡ put r (read plain s)
read-hex8 r s h =
    let value : hex4_value (hex4_value 0 (r / 65536)) r ≡ r =
      omega (arith, hex4_value-eq 0 (r / 65536), hex4_value-eq (hex4_value 0 (r / 65536)) r) in
    read-hex2_more 5 0 (r / 65536 / 256) _
    ∙ read-hex2_more 3 _ (r / 65536) _
    ∙ read-hex4_last _ r s
    ∙ ap (λ v. put v (read plain s)) value

-- The code points of a text are below 0x110000.
lt_of_IsScalar : (n : ℕ) → IsScalar n → n < 1114112
lt_of_IsScalar n p = ground arith

abbrev IsCode : ℕ → Type 0
IsCode c = c < 1114112

codes-IsCode : (s : String) → All IsCode (codes s)
codes-IsCode String.[] = tt
codes-IsCode (String.◌∷◌ (char n p) s) = (lt_of_IsScalar n p, codes-IsCode s)

read_other :
    (r : ℕ) (s : Text)
    → (r == b'"' || r == b'\\') ≡ false
    → read plain (r ∷ s) ≡ put r (read plain s)
unfolding read
read_other r s h = ground arith

read_escaped_self :
    (r : ℕ) (s : Text)
    → (r == b'"' || r == b'\\') ≡ true
    → read plain (b'\\' ∷ r ∷ s) ≡ put r (read plain s)
unfolding read hex_mode simple_escape
read_escaped_self r s h =
    let Reads = λ (k : ℕ). read plain (b'\\' ∷ k ∷ s) ≡ put k (read plain s) in
    elim (Bool-cases (r == b'"')) [
      | inl e ↦ let same : r ≡ b'"' = ground arith in subst Reads (sym same) refl
      | inr e ↦ let same : r ≡ b'\\' = ground arith in subst Reads (sym same) refl
    ]

-- Behind a backslash stands a letter: the control characters, and the hexadecimal forms.
read_letters :
    (s : Text)
    → (read plain (b'\\' ∷ b'a' ∷ s) ≡ put 7 (read plain s))
      × (read plain (b'\\' ∷ b'b' ∷ s) ≡ put 8 (read plain s))
      × (read plain (b'\\' ∷ b'f' ∷ s) ≡ put 12 (read plain s))
      × (read plain (b'\\' ∷ b'n' ∷ s) ≡ put 10 (read plain s))
      × (read plain (b'\\' ∷ b'r' ∷ s) ≡ put 13 (read plain s))
      × (read plain (b'\\' ∷ b't' ∷ s) ≡ put 9 (read plain s))
      × (read plain (b'\\' ∷ b'v' ∷ s) ≡ put 11 (read plain s))
unfolding read hex_mode simple_escape
read_letters s = (refl, refl, refl, refl, refl, refl, refl)

read_hex_letters :
    (s : Text)
    → (read plain (b'\\' ∷ b'x' ∷ s) ≡ read (hex 2 0) s)
      × (read plain (b'\\' ∷ b'u' ∷ s) ≡ read (hex 4 0) s)
      × (read plain (b'\\' ∷ b'U' ∷ s) ≡ read (hex 8 0) s)
unfolding read hex_mode
read_hex_letters s = (refl, refl, refl)

module _ (unicode : Unicode) where
  read-escape :
      (r : ℕ) (s : Text) → r < 1114112 → read plain (escape unicode r s) ≡ put r (read plain s)
  unfolding escape
  read-escape r s h = ground (
    arith,
    read_other r s,
    read_escaped_self r s,
    read_letters s,
    read_hex_letters (hex2 r s),
    read_hex_letters (hex4 r s),
    read_hex_letters (hex8 r s),
    read-hex2 r s,
    read-hex4 r s,
    read-hex8 r s,
  )

  put_front : Text → Read → Read
  put_front [] e = e
  put_front (c ∷ cs) e = put c (put_front cs e)

  read-escape_all :
      (s : Text) (end : Text)
      → All IsCode s
      → read plain (escape_all unicode s end) ≡ put_front s (read plain end)
  unfolding escape_all put_front
  read-escape_all [] end h = refl
  read-escape_all (r ∷ s) end (h, hs) = read-escape r _ h ∙ ap (put r) (read-escape_all s end hs)

  put_front-some : (s cs rest : Text) → put_front s (some (cs, rest)) ≡ some (s ++ cs, rest)
  unfolding put_front
  put_front-some [] cs rest = refl
  put_front-some (c ∷ s) cs rest = rw (put_front-some s cs rest)

  -- A quoted text is read back whole, and what stands behind it is left as it is.
  pub unquote-quote :
      (s : String) (rest : Text)
      → unquote_before (quote_before unicode s rest) ≡ some (codes s, rest)
  unfolding unquote_before quote_before
  unquote-quote s rest =
      read-escape_all (codes s) (b'"' ∷ rest) (codes-IsCode s)
      ∙ put_front-some (codes s) [] rest
      ∙ ap (λ t. some (t, rest)) (append-nil (codes s))
