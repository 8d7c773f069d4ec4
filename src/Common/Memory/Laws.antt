-- ===== src/Common/Memory/Laws.antt =====
-- A logic for code that copies: what it reads was there before, what it allocates is its own.
use gardener_extension_shoot.Common.{
  ℕ, suc, ◌≤◌, ◌<◌, ◌≡◌, refl, ◌∙◌, ap, List, [], ◌∷◌, map, Option, none, some, arith,
}
use gardener_extension_shoot.Common.Memory.{
  Cells, CellType, Heap, Memory, ◌>>=◌, ◌>>◌, pure, load, update, store, fill, unless_nil,
  copy_pointer, copy_slice,
}

-- A pointer stands for a value: a nil pointer for none, another for what it points to.
abbrev pub Pointer : {A : Type 0} → (ℕ → A → Type 0) → Option ℕ → Option A → Type 0
Pointer P none none = Unit {0}
Pointer P (some p) (some a) = P p a
Pointer P _ _ = ⊥

-- A slice stands for a list: a nil slice for the empty one, another for its array.
abbrev pub Slice : {A : Type 0} → (ℕ → List A → Type 0) → Option ℕ → List A → Type 0
Slice P none [] = Unit {0}
Slice P none (x ∷ xs) = ⊥
Slice P (some p) xs = P p xs

module _ {X : Type 0} where
  update_self : (f : Cells X) (p : ℕ) (x : X) → update f p x p ≡ some x
  update_self f p x = ground arith

  update_below : (f : Cells X) (p : ℕ) (x : X) (r : ℕ) → r < p → update f p x r ≡ f r
  update_below f p x r lt = ground arith

  update_above : (f : Cells X) (p : ℕ) (x : X) (r : ℕ) → p < r → update f p x r ≡ f r
  update_above f p x r lt = ground arith

  >>=-some :
      {A B : Type 0} (m : Memory X A) (f : A → Memory X B) (h : Heap X) {a : A} {g : Heap X}
      → m h ≡ some (a, g)
      → (m >>= f) h ≡ f a g
  >>=-some m f h e = rw (e, ◌>>=◌)

  -- The cells are as the heap has them from a pointer on.
  abbrev pub AgreeFrom : ℕ → Heap X → Cells X → Type 0
  AgreeFrom lo h c = (r : ℕ) → lo ≤ r → r < h.next → c r ≡ h.cell r

  -- The code runs from `h`, leaves the cells of `h` as they are, and its result is right for as long
  -- as nobody changes the cells that it has allocated.
  pub record Run {A : Type 0} (m : Memory X A) (Q : Cells X → A → Type 0) (h : Heap X)
      : Type 0 where
    pub value : A
    pub heap : Heap X
    pub runs : m h ≡ some (value, heap)
    pub grows : h.next ≤ heap.next
    pub keeps : (r : ℕ) → r < h.next → heap.cell r ≡ h.cell r
    pub owned : (c : Cells X) → AgreeFrom h.next heap c → Q c value

  -- The cells hold nothing that is not in the heap.
  abbrev pub Within : Cells X → Heap X → Type 0
  Within c h = (r : ℕ) (x : X) → c r ≡ some x → (r < h.next) × (h.cell r ≡ some x)

  -- From each heap that still has the cells `c`, the code runs.
  abbrev pub Copies : Cells X → {A : Type 0} → Memory X A → (Cells X → A → Type 0) → Type 0
  Copies c m Q = (h : Heap X) → Within c h → Run m Q h

  module _ (c : Cells X) where
    pub pure-Copies :
        {A : Type 0} (a : A) (Q : Cells X → A → Type 0)
        → ((d : Cells X) → Q d a)
        → Copies c (pure a) Q
    pure-Copies a Q holds h within = record {
      value = a;
      heap = h;
      runs = refl;
      grows = omega arith;
      keeps = λ r _. refl;
      owned = λ d _. holds d;
    }

    Within-after :
        {A : Type 0} {m : Memory X A} {Q : Cells X → A → Type 0} (h : Heap X) (run : Run m Q h)
        → Within c h
        → Within c run.heap
    Within-after h run within r x held =
        let old = within r x held in (omega (arith, run.grows), run.keeps r old.0 ∙ old.1)

    weaken :
        {A : Type 0} (m : Memory X A) (P Q : Cells X → A → Type 0)
        → Copies c m P
        → ((d : Cells X) (a : A) → P d a → Q d a)
        → Copies c m Q
    weaken m P Q copies implies h within =
        let run = copies h within in
        record {
          value = run.value;
          heap = run.heap;
          runs = run.runs;
          grows = run.grows;
          keeps = run.keeps;
          owned = λ d agree. implies d run.value (run.owned d agree);
        }

    pub >>=-Copies :
        {A B : Type 0} (m : Memory X A) (f : A → Memory X B) (P : Cells X → A → Type 0)
        (Q : Cells X → B → Type 0)
        → Copies c m P
        → ((a : A) → Copies c (f a) (λ d b. P d a → Q d b))
        → Copies c (m >>= f) Q
    >>=-Copies m f P Q first second h within =
        let run = first h within in
        let rest = second run.value run.heap (Within-after h run within) in
        record {
          value = rest.value;
          heap = rest.heap;
          runs = >>=-some m f h run.runs ∙ rest.runs;
          grows = omega (arith, run.grows, rest.grows);
          keeps = λ r lt. rest.keeps r (omega (arith, run.grows)) ∙ run.keeps r lt;
          owned = λ d agree.
              rest.owned d (λ r lo hi. agree r (omega (arith, run.grows)) hi)
                (run.owned d λ r lo hi. agree r lo (omega (arith, rest.grows)) ∙ rest.keeps r hi);
        }

    -- The code goes on with what the cell holds.
    load->>=-Copies :
        {A B : Type 0} (type : CellType X A) (p : ℕ) (a : A) (f : A → Memory X B)
        (Q : Cells X → B → Type 0)
        → c p ≡ some (type.wrap a)
        → Copies c (f a) Q
        → Copies c (load type.read p >>= f) Q
    load->>=-Copies type p a f Q held copies h within =
        let run = copies h within in
        record {
          value = run.value;
          heap = run.heap;
          runs =
              >>=-some (load type.read p) f h
                (rw ((within p (type.wrap a) held).1, type.reads a, load))
              ∙ run.runs;
          grows = run.grows;
          keeps = run.keeps;
          owned = run.owned;
        }

    -- A pointer to a new cell, which holds what was to be written there.
    pub fill-Copies :
        (zero_value : X) (m : Memory X X) (Q : Cells X → X → Type 0)
        → Copies c m Q
        → Copies c (fill zero_value m) (λ d p. (x : X) × (d p ≡ some x) × Q d x)
    fill-Copies zero_value m Q copies h within =
        let start : Heap X = record { next = suc h.next; cell = update h.cell h.next zero_value } in
        let still : Within c start = λ r x held.
          let old = within r x held in
          (omega (arith, old.0), update_below h.cell h.next zero_value r old.0 ∙ old.1) in
        let run = copies start still in
        record {
          value = h.next;
          heap = record run.heap { cell = update run.heap.cell h.next run.value };
          runs = >>=-some m (λ x. store h.next x >> pure h.next) start run.runs;
          grows = omega (arith, run.grows);
          keeps = λ r lt.
              update_below run.heap.cell h.next run.value r lt
              ∙ run.keeps r (omega arith)
              ∙ update_below h.cell h.next zero_value r lt;
          owned = λ d agree. (
            run.value,
            agree h.next (omega arith) (omega (arith, run.grows))
                ∙ update_self run.heap.cell h.next run.value,
            run.owned d λ r lo hi.
                agree r (omega arith) hi ∙ update_above run.heap.cell h.next run.value r lo,
          );
        }

    -- The same for a value of a type.
    fill_with-Copies :
        {A : Type 0} (type : CellType X A) (zero_value : X) (m : Memory X A)
        (P : Cells X → A → Type 0)
        → Copies c m P
        → Copies c
            (fill zero_value (m >>= λ a. pure (type.wrap a)))
            (λ d p. (a : A) × (d p ≡ some (type.wrap a)) × P d a)
    fill_with-Copies {A = A} type zero_value m P copies =
        weaken (fill zero_value (m >>= λ a. pure (type.wrap a))) _ _
          (fill-Copies zero_value (m >>= λ a. pure (type.wrap a))
            (λ d x. (a : A) × (x ≡ type.wrap a) × P d a)
            (>>=-Copies m (λ a. pure (type.wrap a)) P _ copies
              λ a. pure-Copies (type.wrap a) _ λ d held. (a, refl, held)))
          λ d p filled. (filled.2.0, filled.1 ∙ ap some filled.2.1, filled.2.2)

    -- The new cell of a copied pointer holds what is copied.
    pub copy_pointer-Copies :
        {A : Type 0} (type : CellType X A) (into : A → Memory X A) (p : ℕ) (a : A)
        (P : Cells X → A → Type 0)
        → c p ≡ some (type.wrap a)
        → Copies c (into a) P
        → Copies c (copy_pointer type into p) (λ d q. (b : A) × (d q ≡ some (type.wrap b)) × P d b)
    copy_pointer-Copies type into p a P held copies =
        fill_with-Copies type (type.wrap type.zero_value) (load type.read p >>= into) P
          (load->>=-Copies type p a into P held copies)

    pub copy_slice-Copies :
        {A : Type 0} (zero_value : A) (type : CellType X (List A))
        (into : List A → Memory X (List A)) (p : ℕ) (xs : List A) (P : Cells X → List A → Type 0)
        → c p ≡ some (type.wrap xs)
        → Copies c (into xs) P
        → Copies c
            (copy_slice zero_value type into p)
            (λ d q. (ys : List A) × (d q ≡ some (type.wrap ys)) × P d ys)
    copy_slice-Copies zero_value type into p xs P held copies =
        load->>=-Copies type p xs _ _ held
          (fill_with-Copies type (type.wrap (map (λ _. zero_value) xs)) (into xs) P copies)

    pub Pointer-Copies :
        {A : Type 0} (f : ℕ → Memory X ℕ) (P : Cells X → ℕ → A → Type 0) (p : Option ℕ)
        (v : Option A)
        → Pointer (P c) p v
        → ((q : ℕ) (a : A) → P c q a → Copies c (f q) (λ d r. P d r a))
        → Copies c (unless_nil f p) (λ d r. Pointer (P d) r v)
    Pointer-Copies f P none none held copies = pure-Copies none _ (λ d. tt)
    Pointer-Copies f P none (some a) held copies = elim held [ ]
    Pointer-Copies f P (some q) none held copies = elim held [ ]
    Pointer-Copies f P (some q) (some a) held copies =
        >>=-Copies (f q) (λ r. pure (some r)) (λ d r. P d r a) _ (copies q a held)
          λ r. pure-Copies (some r) _ (λ d copied. copied)

    pub Slice-Copies :
        {A : Type 0} (f : ℕ → Memory X ℕ) (P : Cells X → ℕ → List A → Type 0) (p : Option ℕ)
        (xs : List A)
        → Slice (P c) p xs
        → ((q : ℕ) → P c q xs → Copies c (f q) (λ d r. P d r xs))
        → Copies c (unless_nil f p) (λ d r. Slice (P d) r xs)
    Slice-Copies f P none [] held copies = pure-Copies none _ (λ d. tt)
    Slice-Copies f P none (x ∷ xs) held copies = elim held [ ]
    Slice-Copies f P (some q) xs held copies =
        >>=-Copies (f q) (λ r. pure (some r)) (λ d r. P d r xs) _ (copies q held)
          λ r. pure-Copies (some r) _ (λ d copied. copied)
