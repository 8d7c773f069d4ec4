-- ===== src/Common/Outcome/Laws.antt =====
-- Inversion of chains of outcomes.
use mathlib.Core.Path.{◌≡◌, refl}
use mathlib.Core.Logic.{◌≢◌, ◌↔◌}
use gardener_extension_shoot.Common.Outcome.{Outcome, ok, err, panic, ◌>>=◌, ◌>>◌}

module _ {ℓ} {E : Type ℓ} where
  -- A chain that ends well goes through a value of its first part.
  pub through {κ μ} :
      {A : Type κ} {B : Type μ} {result : B} (next : A → Outcome E B) (first : Outcome E A)
      → (first >>= next) ≡ ok result
      → (value : A) × (first ≡ ok value) × (next value ≡ ok result)
  through next (ok value) ends = (value, refl, ends)
  through next (err failure) ends = cc
  through next panic ends = cc

  pub >>-eq-ok_iff :
      {m k : Outcome E (Unit {0})} {P Q : Type 0}
      → (m ≡ ok tt) ↔ P
      → (k ≡ ok tt) ↔ Q
      → ((m >> k) ≡ ok tt) ↔ (P × Q)
  >>-eq-ok_iff {m = ok a} p q = (λ e. (p.0 refl, q.0 e), λ h. q.1 h.1)
  >>-eq-ok_iff {m = err x} p q = (λ e. cc, λ h. cc (p.1 h.0))
  >>-eq-ok_iff {m = panic} p q = (λ e. cc, λ h. cc (p.1 h.0))

  -- A chain does not panic if neither part does.
  pub >>=-ne-panic {κ μ} :
      {A : Type κ} {B : Type μ} (m : Outcome E A) (f : A → Outcome E B)
      → m ≢ panic
      → ((a : A) → m ≡ ok a → f a ≢ panic)
      → (m >>= f) ≢ panic
  >>=-ne-panic (ok a) f h k = k a refl
  >>=-ne-panic (err e) f h k = λ p. cc
  >>=-ne-panic panic f h k = absurd (h refl)
