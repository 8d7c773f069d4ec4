-- ===== src/DeepCopy/Fields.antt =====
-- Copies of the pointers and slices in the structs.
use gardener_extension_shoot.Common.{String, ℕ, List, Option, Bool, ◌≡◌}
use gardener_extension_shoot.Common.Memory.{
  Cells, CellType, Memory, pure, copy_pointer, copy_slice, unless_nil,
}
use gardener_extension_shoot.Common.Memory.Laws.{
  Copies, Pointer, Slice, pure-Copies, copy_pointer-Copies, copy_slice-Copies, Pointer-Copies,
  Slice-Copies,
}
use gardener_extension_shoot.Common.Int.{ℤ}
use gardener_extension_shoot.DeepCopy.{copy_text, copy_number, copy_flag, copy_texts}
use gardener_extension_shoot.DeepCopy.Layout.{Cell, text_cell, number_cell, flag_cell, texts_cell}
use gardener_extension_shoot.DeepCopy.Holds.{Holds, Same, HasText, HasNumber, HasFlag, HasTexts}

module _ (c : Cells Cell) where
  -- The copy of a cell, by the copy of what it holds.
  pub new-Copies :
      {T A : Type 0} (type : CellType Cell T) (into : T → Memory Cell T)
      (Is : Cells Cell → T → A → Type 0)
      → ((t : T) (a : A) → Is c t a → Copies c (into t) (λ d u. Is d u a))
      → (p : ℕ) (a : A) → Holds type.wrap Is c p a
      → Copies c (copy_pointer type into p) (λ d q. Holds type.wrap Is d q a)
  new-Copies type into Is copies p a (t, at, is) =
      copy_pointer-Copies c type into p t (λ d u. Is d u a) at (copies t a is)

  pub new_slice-Copies :
      {T A : Type 0} (zero_value : T) (type : CellType Cell (List T))
      (into : List T → Memory Cell (List T)) (Are : Cells Cell → List T → List A → Type 0)
      → ((ts : List T) (as_ : List A) → Are c ts as_ → Copies c (into ts) (λ d us. Are d us as_))
      → (p : ℕ) (as_ : List A) → Holds type.wrap Are c p as_
      → Copies c (copy_slice zero_value type into p) (λ d q. Holds type.wrap Are d q as_)
  new_slice-Copies zero_value type into Are copies p as_ (ts, at, are) =
      copy_slice-Copies c zero_value type into p ts (λ d us. Are d us as_) at (copies ts as_ are)

  pure-Copies-Same : {A : Type 0} (a b : A) → a ≡ b → Copies c (pure a) (λ d u. Same {A = A} d u b)
  pure-Copies-Same a b same = pure-Copies c a _ (λ d. same)

  pub copy_text-Copies :
      (p : Option ℕ) (v : Option String)
      → Pointer (HasText c) p v
      → Copies c (unless_nil copy_text p) (λ d q. Pointer (HasText d) q v)
  copy_text-Copies p v held =
      Pointer-Copies c copy_text HasText p v held (new-Copies text_cell pure Same pure-Copies-Same)

  pub copy_number-Copies :
      (p : Option ℕ) (v : Option ℤ)
      → Pointer (HasNumber c) p v
      → Copies c (unless_nil copy_number p) (λ d q. Pointer (HasNumber d) q v)
  copy_number-Copies p v held =
      Pointer-Copies c copy_number HasNumber p v held
        (new-Copies number_cell pure Same pure-Copies-Same)

  pub copy_flag-Copies :
      (p : Option ℕ) (v : Option Bool)
      → Pointer (HasFlag c) p v
      → Copies c (unless_nil copy_flag p) (λ d q. Pointer (HasFlag d) q v)
  copy_flag-Copies p v held =
      Pointer-Copies c copy_flag HasFlag p v held (new-Copies flag_cell pure Same pure-Copies-Same)

  pub copy_texts-Copies :
      (p : Option ℕ) (v : List String)
      → Slice (HasTexts c) p v
      → Copies c (unless_nil copy_texts p) (λ d q. Slice (HasTexts d) q v)
  copy_texts-Copies p v held =
      Slice-Copies c copy_texts HasTexts p v held
        λ q. new_slice-Copies "" texts_cell pure Same pure-Copies-Same q v
