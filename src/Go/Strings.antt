-- ===== src/Go/Strings.antt =====
-- Functions of package strings, over texts that the code builds.
use gardener_extension_shoot.Common.{
  ℕ, List, [], ◌∷◌, ◌++◌, Text, Option, none, some, ◌==◌, if◌then◌else◌, ◌≡◌, refl, arith,
}

-- strings.Join(parts, sep)
unfoldable pub join : List Text → Text → Text
join [] sep = []
join (p ∷ []) sep = p
join (p ∷ q ∷ ps) sep = p ++ (sep ++ join (q ∷ ps) sep)

-- what is left behind a literal prefix
unfoldable pub strip_prefix : List ℕ → List ℕ → Option (List ℕ)
strip_prefix [] s = some s
strip_prefix (p ∷ ps) [] = none
strip_prefix (p ∷ ps) (c ∷ s) = if p == c then strip_prefix ps s else none

pub strip_prefix_sound : (p s t : Text) → strip_prefix p s ≡ some t → s ≡ p ++ t
unfolding strip_prefix
strip_prefix_sound [] s t e = ground arith
strip_prefix_sound (c ∷ p) [] t e = cc
strip_prefix_sound (c ∷ p) (d ∷ s) t e = ground (arith, strip_prefix_sound p s t)

pub strip_prefix-append : (p t : Text) → strip_prefix p (p ++ t) ≡ some t
unfolding strip_prefix
strip_prefix-append [] t = refl
strip_prefix-append (c ∷ p) t = ground (arith, strip_prefix-append p t)
