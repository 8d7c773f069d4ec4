-- ===== src/Common/Keys.antt =====
-- Maps with distinct keys: how many entries there are beside given keys.
use gardener_extension_shoot.Common.Tests.{if◌then◌else◌}
use gardener_extension_shoot.Common.Maps.{Map, lookup, length, HasDistinctKeys}
use Prim.Native.Nat.{suc, ◌+◌}
use Prim.Native.String.{String}
use mathlib.Core.Path.{◌≡◌, refl}
use mathlib.Core.Logic.{◌≢◌, ◌⊎◌, ◌↔◌}
use mathlib.Core.Option.{none}
use mathlib.Core.List.{[], ◌∷◌}
use native.Mathlib.Omega.{arith}
use text.Mathlib.Text.{◌==◌}
use text.Mathlib.TextEquality.{eq_iff}

module _ {ℓ} {V : Type ℓ} where
  -- the map without a key
  remove : String → Map V → Map V
  remove k [] = []
  remove k ((j, v) ∷ m) = if j == k then m else (j, v) ∷ remove k m

  -- A key of the map counts for one entry, and every other key is left.
  length-remove :
      (k : String) (m : Map V) → lookup k m ≢ none → length m ≡ suc (length (remove k m))
  unfolding lookup remove
  length-remove k [] h = absurd (h refl)
  length-remove k ((j, v) ∷ m) h = ground (arith, length-remove k m)

  lookup-remove :
      (k j : String) (m : Map V)
      → HasDistinctKeys m
      → lookup j (remove k m) ≡ (if k == j then none else lookup j m)
  unfolding lookup remove
  lookup-remove k j [] h = ground arith
  lookup-remove k j ((i, v) ∷ m) h =
      ground (arith, eq_iff i k, eq_iff i j, eq_iff k j, lookup-remove k j m h.1)

  remove-HasDistinctKeys :
      (k : String) (m : Map V) → HasDistinctKeys m → HasDistinctKeys (remove k m)
  unfolding remove
  remove-HasDistinctKeys k [] h = tt
  remove-HasDistinctKeys k ((j, v) ∷ m) h =
      ground (arith, lookup-remove k j m h.1, remove-HasDistinctKeys k m h.1)

  -- no entry at all
  length-eq-zero_iff : (m : Map V) → (length m ≡ 0) ↔ ((k : String) → lookup k m ≡ none)
  unfolding lookup
  length-eq-zero_iff [] = (λ e k. refl, λ h. refl)
  length-eq-zero_iff ((j, v) ∷ m) =
      (λ e. absurd (omega arith), λ h. ground (arith, h j, eq_iff j j))

  -- A map has one entry exactly when the key that it has is its only one.
  pub length-eq-one_iff :
      (a : String) (m : Map V)
      → HasDistinctKeys m
      → lookup a m ≢ none
      → (length m ≡ 1) ↔ ((k : String) → lookup k m ≢ none → k ≡ a)
  length-eq-one_iff a m d h =
      let rest = length-eq-zero_iff (remove a m) in
      (
        λ e k found. ground (
          arith,
          length-remove a m h,
          rest.0 (omega (arith, length-remove a m h)) k,
          lookup-remove a k m d,
          eq_iff a k,
        ),
        λ only. omega (
          arith,
          length-remove a m h,
          rest.1 (λ k. ground (arith, lookup-remove a k m d, eq_iff a k, only k)),
        ),
      )

  -- The same for three different keys.
  pub length-eq-three_iff :
      (a b c : String) (m : Map V)
      → a ≢ b
      → a ≢ c
      → b ≢ c
      → HasDistinctKeys m
      → lookup a m ≢ none
      → lookup b m ≢ none
      → lookup c m ≢ none
      → (length m ≡ 3) ↔ ((k : String) → lookup k m ≢ none → (k ≡ a) ⊎ (k ≡ b) ⊎ (k ≡ c))
  length-eq-three_iff a b c m ab ac bc d ha hb hc =
      let m₁ = remove a m in
      let m₂ = remove b m₁ in
      let d₁ = remove-HasDistinctKeys a m d in
      let d₂ = remove-HasDistinctKeys b m₁ d₁ in
      let hb₁ : lookup b m₁ ≢ none = ground (arith, lookup-remove a b m d, eq_iff a b) in
      let hc₂ : lookup c m₂ ≢ none =
        ground (arith, lookup-remove a c m d, lookup-remove b c m₁ d₁, eq_iff a c, eq_iff b c) in
      let size : length m ≡ 3 + length (remove c m₂) =
        omega (arith, length-remove a m ha, length-remove b m₁ hb₁, length-remove c m₂ hc₂) in
      let rest = length-eq-zero_iff (remove c m₂) in
      (
        λ e k found. ground (
          arith,
          rest.0 (omega (arith, size)) k,
          lookup-remove a k m d,
          lookup-remove b k m₁ d₁,
          lookup-remove c k m₂ d₂,
          eq_iff a k,
          eq_iff b k,
          eq_iff c k,
        ),
        λ only.
            let empty = rest.1 λ k. ground (
              arith,
              only k,
              lookup-remove a k m d,
              lookup-remove b k m₁ d₁,
              lookup-remove c k m₂ d₂,
              eq_iff a k,
              eq_iff b k,
              eq_iff c k,
            ) in
            omega (arith, size),
      )
