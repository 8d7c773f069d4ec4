-- ===== src/Common/Effect.antt =====
-- Go functions that change state and return an error: the state comes back after an error too,
-- since what was written stays written.
pub mod Laws
use gardener_extension_shoot.Common.Outcome.{Outcome, ok, err, panic}

abbrev pub Effect : Type 0 → Type 0 → Type 0 → Type 0
Effect E S A = S → Outcome E A × S

-- What goes on, by the outcome of the part before.
abbrev pub proceed : {E S A B : Type 0} → (A → Effect E S B) → Outcome E A → S → Outcome E B × S
proceed f (ok a) s = f a s
proceed f (err e) s = (err e, s)
proceed f panic s = (panic, s)

infixl 5 ◌>>=◌ ◌>>◌
abbrev pub ◌>>=◌ : {E S A B : Type 0} → Effect E S A → (A → Effect E S B) → Effect E S B
◌>>=◌ m f s = proceed f (m s).0 (m s).1

abbrev pub ◌>>◌ : {E S B : Type 0} → Effect E S (Unit {0}) → Effect E S B → Effect E S B
◌>>◌ m k s = proceed (λ _. k) (m s).0 (m s).1

module _ {E S : Type 0} where
  abbrev pub done : Effect E S (Unit {0})
  done s = (ok tt, s)

  abbrev pub lift : {A : Type 0} → Outcome E A → Effect E S A
  lift m s = (m, s)

  abbrev pub modify : (S → S) → Effect E S (Unit {0})
  modify f s = (ok tt, f s)
