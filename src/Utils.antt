-- ===== src/Utils.antt =====
-- pkg/utils: ProjectName, with the functions of package strings that it calls.
use mathlib.Core.List.{reverse, reverse-append, reverse-reverse}
use gardener_extension_shoot.Common.{
  ℕ, zero, suc, [], ◌∷◌, ◌++◌, Text, codes, Option, none, some, ◌==◌, if◌then◌else◌, ◌≡◌, ◌≢◌, ◌∙◌,
  refl, ap, arith,
}
use gardener_extension_shoot.Go.Strings.{strip_prefix, strip_prefix-append}

abbrev stripped_or : Option Text → Text → Text
stripped_or none s = s
stripped_or (some t) s = t

-- strings.TrimPrefix
unfoldable pub trim_prefix : Text → Text → Text
trim_prefix s prefix = stripped_or (strip_prefix prefix s) s

-- strings.TrimSuffix
unfoldable pub trim_suffix : Text → Text → Text
unfolding trim_prefix
trim_suffix s suffix = reverse (trim_prefix (reverse s) (reverse suffix))

-- strings.TrimLeft(s, "-")
unfoldable pub trim_left : Text → Text
trim_left [] = []
trim_left (c ∷ s) = if c == b'-' then trim_left s else c ∷ s

-- strings.Trim(s, "-")
unfoldable pub trim : Text → Text
unfolding trim_left
trim s = reverse (trim_left (reverse (trim_left s)))

unfoldable pub project_name : Text → Text → Text
unfolding trim_suffix trim
project_name namespace shoot_name =
    trim (trim_suffix (trim_prefix namespace (codes "shoot-")) (codes "-" ++ shoot_name))

-- A text that does not begin with a dash.
abbrev pub NoDash : Text → Type 0
NoDash [] = Unit
NoDash (c ∷ s) = c ≢ b'-'

abbrev pub dashes : ℕ → Text
dashes zero = []
dashes (suc n) = b'-' ∷ dashes n

trim_left-dashes : (n : ℕ) (s : Text) → trim_left (dashes n ++ s) ≡ trim_left s
unfolding trim_left
trim_left-dashes zero s = refl
trim_left-dashes (suc n) s = trim_left-dashes n s

trim_left_of_NoDash : (s : Text) → NoDash s → trim_left s ≡ s
unfolding trim_left
trim_left_of_NoDash [] h = refl
trim_left_of_NoDash (c ∷ s) h = ground arith

dashes-concat : (n : ℕ) → dashes n ++ b'-' ∷ [] ≡ b'-' ∷ dashes n
dashes-concat zero = refl
dashes-concat (suc n) = ap (λ s. b'-' ∷ s) (dashes-concat n)

reverse-dashes : (n : ℕ) → reverse (dashes n) ≡ dashes n
reverse-dashes zero = refl
reverse-dashes (suc n) =
    reverse-append (b'-' ∷ []) (dashes n)
    ∙ ap (λ s. s ++ b'-' ∷ []) (reverse-dashes n)
    ∙ dashes-concat n

pub trim_suffix-append : (s t : Text) → trim_suffix (s ++ t) t ≡ s
unfolding trim_suffix trim_prefix
trim_suffix-append s t =
    rw (reverse-append s t, strip_prefix-append (reverse t) (reverse s)) (reverse-reverse s)

trim_prefix-append : (s t : Text) → trim_prefix (s ++ t) s ≡ t
unfolding trim_prefix
trim_prefix-append s t = rw (strip_prefix-append s t)

trim_left_of_dashes : (n : ℕ) → trim_left (dashes n) ≡ []
unfolding trim_left
trim_left_of_dashes zero = refl
trim_left_of_dashes (suc n) = trim_left_of_dashes n

trim_left_end :
    (n : ℕ) (p : Text) → NoDash (reverse p) → trim_left (reverse (p ++ dashes n)) ≡ reverse p
trim_left_end n p k =
    rw (reverse-append p (dashes n), reverse-dashes n, trim_left-dashes n (reverse p))
      (trim_left_of_NoDash (reverse p) k)

trim-dashes :
    (m n : ℕ) (p : Text) → NoDash p → NoDash (reverse p) → trim (dashes m ++ (p ++ dashes n)) ≡ p
unfolding trim
trim-dashes m n [] h k = rw (trim_left-dashes m (dashes n), trim_left_of_dashes n)
trim-dashes m n (c ∷ p) h k =
    rw
      (
        trim_left-dashes m ((c ∷ p) ++ dashes n),
        trim_left_of_NoDash ((c ∷ p) ++ dashes n) h,
        trim_left_end n (c ∷ p) k,
      )
      (reverse-reverse (c ∷ p))

-- The namespace of a Shoot, "shoot-", the project and the Shoot's name with any number of further
-- dashes between them, gives back the project, if that neither begins nor ends with a dash.
pub project_name-namespace :
    (m n : ℕ) (project shoot_name : Text)
    → NoDash project
    → NoDash (reverse project)
    → project_name
        (codes "shoot-" ++ ((dashes m ++ (project ++ dashes n)) ++ (codes "-" ++ shoot_name)))
        shoot_name
      ≡ project
unfolding project_name
project_name-namespace m n project shoot_name h k =
    rw (trim_prefix-append, trim_suffix-append) (trim-dashes m n project h k)
