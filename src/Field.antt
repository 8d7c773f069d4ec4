-- ===== src/Field.antt =====
-- Values of k8s.io/apimachinery/pkg/util/validation/field, as the calls of that package that the
-- source makes: nothing is assumed of them but that they are data.
use gardener_extension_shoot.Common.{String, ℕ, List}
use gardener_extension_shoot.Common.Int.{ℤ}

-- field.NewPath(name, moreNames...), and the methods Child and Index
pub data FieldPath : Type 0 where
  new_path : String → List String → FieldPath
  child : FieldPath → String → FieldPath
  index : FieldPath → ℕ → FieldPath

-- the value that an error shows
pub data BadValue : Type 0 where
  text : String → BadValue
  int : ℤ → BadValue
  pointer_to_text : String → BadValue

pub data FieldError : Type 0 where
  required : FieldPath → String → FieldError
  invalid : FieldPath → BadValue → String → FieldError
  not_supported : FieldPath → BadValue → List String → FieldError

abbrev pub ErrorList : Type 0
ErrorList = List FieldError
