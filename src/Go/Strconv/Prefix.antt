-- ===== src/Go/Strconv/Prefix.antt =====
-- A printer that puts its output in front of a text prints the same, whatever that text is.
use gardener_extension_shoot.Common.{
  String, ℕ, zero, suc, ◌+◌, ◌/◌, ◌%◌, ◌≤◌, [], ◌∷◌, ◌++◌, Text, codes, some, ◌≡◌, ◌∙◌, ap, sym,
  refl, arith, length,
}
use gardener_extension_shoot.Common.Int.{ℤ, pos, negsuc}
use gardener_extension_shoot.Go.Strconv.{Unicode, escape, escape_all, quote_before, quote}
use gardener_extension_shoot.Go.Strconv.Reader.{unquote_before}
use gardener_extension_shoot.Go.Strconv.Unquote.{unquote-quote}
use gardener_extension_shoot.Go.Strconv.Decimal.{
  digits, print_ℕ, print_int, read_int, EndsNumber, read_int-print_int,
}

module _ (unicode : Unicode) where
  escape-append : (r : ℕ) (s t : Text) → escape unicode r (s ++ t) ≡ escape unicode r s ++ t
  unfolding escape
  escape-append r s t = ground arith

  escape_all-append :
      (s end t : Text) → escape_all unicode s (end ++ t) ≡ escape_all unicode s end ++ t
  unfolding escape_all
  escape_all-append [] end t = refl
  escape_all-append (r ∷ s) end t =
      ap (escape unicode r) (escape_all-append s end t) ∙ escape-append r _ t

  quote_before-quote : (s : String) (t : Text) → quote_before unicode s t ≡ quote unicode s ++ t
  unfolding quote quote_before
  quote_before-quote s t = ap (λ u. b'"' ∷ u) (escape_all-append (codes s) (b'"' ∷ []) t)

  -- What `quote` prints in front of a text is read back.
  pub unquote-quote_append :
      (s : String) (t : Text) → unquote_before (quote unicode s ++ t) ≡ some (codes s, t)
  unquote-quote_append s t =
      ap unquote_before (sym (quote_before-quote s t)) ∙ unquote-quote unicode s t

  pub length-quote : (s : String) → 1 ≤ length (quote unicode s)
  unfolding quote quote_before
  length-quote s = omega arith

digits-append : (fuel n : ℕ) (s t : Text) → digits fuel n (s ++ t) ≡ digits fuel n s ++ t
unfolding digits
digits-append zero n s t = refl
digits-append (suc fuel) n s t = ground (arith, digits-append fuel (n / 10) ((48 + n % 10) ∷ s) t)

print_int-append : (n : ℤ) (s t : Text) → print_int n (s ++ t) ≡ print_int n s ++ t
unfolding print_int print_ℕ
print_int-append (pos n) s t = digits-append (suc n) n s t
print_int-append (negsuc n) s t = ap (λ u. b'-' ∷ u) (digits-append (suc (n + 1)) (n + 1) s t)

-- What `%d` prints in front of a text is read back.
pub read_int-print_append :
    (n : ℤ) (t : Text) → EndsNumber t → read_int (print_int n [] ++ t) ≡ (n, t)
read_int-print_append n t h = ap read_int (sym (print_int-append n [] t)) ∙ read_int-print_int n t h
