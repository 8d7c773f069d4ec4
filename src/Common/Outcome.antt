-- ===== src/Common/Outcome.antt =====
-- The outcome of a Go function with an error result: a value, an error, or a panic, which is what
-- a dereference of a nil pointer ends in.
pub mod Laws
use mathlib.Core.Option.{Option, none, some}

pub data Outcome {ℓ κ} (E : Type ℓ) (A : Type κ) : Type (ℓ ⊔ κ) where
  ok : A → Outcome E A
  err : E → Outcome E A
  panic : Outcome E A

infixl 5 ◌>>=◌ ◌>>◌
abbrev pub ◌>>=◌ {ℓ κ μ} :
    {E : Type ℓ} {A : Type κ} {B : Type μ} → Outcome E A → (A → Outcome E B) → Outcome E B
ok a >>= f = f a
err e >>= f = err e
panic >>= f = panic

abbrev pub ◌>>◌ {ℓ κ} : {E : Type ℓ} {B : Type κ} → Outcome E (Unit {0}) → Outcome E B → Outcome E B
m >> k = m >>= λ _. k

-- `*p`
abbrev pub deref {ℓ κ} : {E : Type ℓ} {A : Type κ} → Option A → Outcome E A
deref none = panic
deref (some a) = ok a

-- `if err := …; err != nil { return err }`
abbrev pub check {ℓ} : {E : Type ℓ} → Option E → Outcome E (Unit {0})
check none = ok tt
check (some e) = err e
