-- ===== src/Common/Memory.antt =====
-- The memory of a Go program: cells behind pointers, and code that allocates, reads and writes them.
pub mod Laws
use gardener_extension_shoot.Common.Tests.{◌==◌, if◌then◌else◌}
use Prim.Native.Nat.{ℕ, suc}
use mathlib.Core.Option.{Option, none, some}
use mathlib.Core.Path.{◌≡◌}
use mathlib.Core.List.{List, map}

abbrev pub Cells : Type 0 → Type 0
Cells X = ℕ → Option X

-- A type of values that cells hold, with its zero value.
pub record CellType (X A : Type 0) : Type 0 where
  pub zero_value : A
  pub wrap : A → X
  pub read : X → Option A
  pub reads : (a : A) → read (wrap a) ≡ some a

-- `next` is the first pointer that is not used.
pub record Heap (X : Type 0) : Type 0 where
  pub next : ℕ
  pub cell : Cells X

-- `none` is a fault: a pointer to nothing, or to a value of another type.
abbrev pub Memory : Type 0 → Type 0 → Type 0
Memory X A = Heap X → Option (A × Heap X)

infixl 5 ◌>>=◌ ◌>>◌
abbrev pub ◌>>=◌ : {X A B : Type 0} → Memory X A → (A → Memory X B) → Memory X B
◌>>=◌ m f h = elim (m h) [ none ↦ none | some (a, h') ↦ f a h' ]

abbrev pub ◌>>◌ : {X B : Type 0} → Memory X (Unit {0}) → Memory X B → Memory X B
m >> k = m >>= λ _. k

module _ {X : Type 0} where
  abbrev pub pure : {A : Type 0} → A → Memory X A
  pure a h = some (a, h)

  -- the value that a cell holds, if it is one of the type that is read
  abbrev pub load : {A : Type 0} → (X → Option A) → ℕ → Memory X A
  load read p h = elim (h.cell p) [
    | none ↦ none
    | some x ↦ elim (read x) [ none ↦ none | some a ↦ some (a, h) ]
  ]

  abbrev pub update : Cells X → ℕ → X → Cells X
  update f p x q = if p == q then some x else f q

  -- `new(T)` and `make`, with the value that they put in
  abbrev pub new : X → Memory X ℕ
  new x h = some (h.next, record { next = suc h.next; cell = update h.cell h.next x })

  abbrev pub store : ℕ → X → Memory X (Unit {0})
  store p x h = some (tt, record h { cell = update h.cell p x })

  -- an allocation, and what is then written there
  abbrev pub fill : X → Memory X X → Memory X ℕ
  fill zero_value m = do p ← new zero_value; x ← m; store p x; pure p

  -- `if in != nil { … }`, which leaves a nil pointer as it is
  abbrev pub unless_nil : (ℕ → Memory X ℕ) → Option ℕ → Memory X (Option ℕ)
  unless_nil f none = pure none
  unless_nil f (some p) = do q ← f p; pure (some q)

  -- `*out = new(A)`, and what is copied there: `**out = **in` or `(*in).DeepCopyInto(*out)`
  abbrev pub copy_pointer : {A : Type 0} → CellType X A → (A → Memory X A) → ℕ → Memory X ℕ
  copy_pointer type into p =
      fill (type.wrap type.zero_value) (do out ← load type.read p >>= into; pure (type.wrap out))

  -- `*out = make([]A, len(*in))`, and what is copied there
  abbrev pub copy_slice :
      {A : Type 0} → A → CellType X (List A) → (List A → Memory X (List A)) → ℕ → Memory X ℕ
  copy_slice zero_value type into p = do
    elements ← load type.read p
    fill (type.wrap (map (λ _. zero_value) elements)) (do out ← into elements; pure (type.wrap out))
