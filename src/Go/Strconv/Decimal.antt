-- ===== src/Go/Strconv/Decimal.antt =====
-- The print that `%d` makes of an `int`, and a reader that gives the `int` back.
use gardener_extension_shoot.Common.{
  ℕ, zero, suc, ◌+◌, ◌-◌, ◌*◌, ◌/◌, ◌%◌, ◌<◌, Bool, true, false, ◌&&◌, ◌==◌, leb, ltb,
  if◌then◌else◌, [], ◌∷◌, Text, ◌≡◌, refl, arith, ◌∙◌, ap, Bool-cases, inl, inr,
}
use gardener_extension_shoot.Common.Int.{ℤ, pos, negsuc}

-- The digits of a number in front of a text; the fuel is one more than the number.
unfoldable pub digits : ℕ → ℕ → Text → Text
digits zero n s = s
digits (suc fuel) n s =
    let front = digits fuel (n / 10) ((48 + n % 10) ∷ s) in if ltb n 10 then (48 + n) ∷ s else front

unfoldable pub print_ℕ : ℕ → Text → Text
unfolding digits
print_ℕ n s = digits (suc n) n s

-- `%d`, in front of a text
unfoldable pub print_int : ℤ → Text → Text
print_int (pos n) s = print_ℕ n s
print_int (negsuc n) s = b'-' ∷ print_ℕ (n + 1) s

abbrev pub is_digit : ℕ → Bool
is_digit c = leb b'0' c && leb c b'9'

-- the number that the digits in front spell, behind `v`, and what stands behind them
unfoldable pub read_digits : ℕ → Text → ℕ × Text
read_digits v [] = (v, [])
read_digits v (c ∷ s) =
    let more = read_digits (v * 10 + (c - 48)) s in if is_digit c then more else (v, c ∷ s)

unfoldable pub read_int : Text → ℤ × Text
read_int [] = (pos 0, [])
read_int (c ∷ s) =
    if c == b'-'
    then (negsuc ((read_digits 0 s).0 - 1), (read_digits 0 s).1)
    else (pos (read_digits 0 (c ∷ s)).0, (read_digits 0 (c ∷ s)).1)

-- A text in front of which a number ends.
abbrev pub EndsNumber : Text → Type 0
EndsNumber [] = Unit
EndsNumber (c ∷ s) = is_digit c ≡ false

read_digits_end : (v : ℕ) (s : Text) → EndsNumber s → read_digits v s ≡ (v, s)
unfolding read_digits
read_digits_end v [] h = refl
read_digits_end v (c ∷ s) h = rw h

-- Reading the digits of `n` in front of `s` is reading `s` behind `n`.
read_digits-digits :
    (fuel n : ℕ) (s : Text) → n < fuel → read_digits 0 (digits fuel n s) ≡ read_digits n s
unfolding read_digits digits
read_digits-digits zero n s h = elim h [ ]
read_digits-digits (suc fuel) n s h =
    ground (arith, read_digits-digits fuel (n / 10) ((48 + n % 10) ∷ s))

-- The print of a number begins with a digit.
digits_head :
    (fuel n : ℕ) (s : Text)
    → n < fuel
    → (c : ℕ) × (t : Text) × (digits fuel n s ≡ c ∷ t) × (is_digit c ≡ true)
unfolding digits
digits_head zero n s h = elim h [ ]
digits_head (suc fuel) n s h = elim (Bool-cases (ltb n 10)) [
  | inl small ↦ (48 + n, s, ground arith, ground arith)
  | inr large ↦
      let (c, t, e, d) = digits_head fuel (n / 10) ((48 + n % 10) ∷ s) (ground arith) in
      (c, t, ground arith, d)
]

read_digits-print_ℕ : (n : ℕ) (s : Text) → EndsNumber s → read_digits 0 (print_ℕ n s) ≡ (n, s)
unfolding print_ℕ
read_digits-print_ℕ n s h = read_digits-digits (suc n) n s (omega arith) ∙ read_digits_end n s h

abbrev non_negative : ℕ × Text → ℤ × Text
non_negative r = (pos r.0, r.1)

abbrev negated : ℕ × Text → ℤ × Text
negated r = (negsuc (r.0 - 1), r.1)

read_int_digit :
    (c : ℕ) (t : Text) → is_digit c ≡ true → read_int (c ∷ t) ≡ non_negative (read_digits 0 (c ∷ t))
unfolding read_int
read_int_digit c t h = ground arith

read_int-print_ℕ :
    (n : ℕ) (s : Text) → read_int (print_ℕ n s) ≡ non_negative (read_digits 0 (print_ℕ n s))
unfolding print_ℕ
read_int-print_ℕ n s =
    let (c, t, e, d) = digits_head (suc n) n s (omega arith) in rw e (read_int_digit c t d)

-- What `%d` prints is read back, if no digit stands behind it: the fuel was enough.
pub read_int-print_int : (n : ℤ) (s : Text) → EndsNumber s → read_int (print_int n s) ≡ (n, s)
unfolding read_int print_int
read_int-print_int (pos n) s h =
    unfold print_int in read_int-print_ℕ n s ∙ ap non_negative (read_digits-print_ℕ n s h)
read_int-print_int (negsuc n) s h =
    ap negated (read_digits-print_ℕ (n + 1) s h) ∙ ap (λ k. (negsuc k, s)) (omega arith)
