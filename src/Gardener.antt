-- ===== src/Gardener.antt =====
-- The Gardener and Kubernetes objects that the source reads, with the fields that it reads, and
-- the errors of Go functions.
use gardener_extension_shoot.Common.{String, Bool, Option, List, Map, ◌⊎◌, inl, inr, ◌≡◌}
use gardener_extension_shoot.Common.Outcome.{Outcome, ok, err, panic}
use gardener_extension_shoot.Field.{FieldError, ErrorList}

-- An error value: a message, one that wraps another (`%w` behind the text), a field error or an
-- aggregate of them, and an error of a package that is not modelled.
pub data Error : Type 0 where
  message : String → Error
  wrapped : String → Error → Error
  field_error : FieldError → Error
  aggregate : ErrorList → Error
  external : String → Error

-- `if err != nil { return fmt.Errorf(text, err) }`
abbrev pub wrap_outcome : {A : Type 0} → String → Outcome Error A → Outcome Error A
wrap_outcome text (ok a) = ok a
wrap_outcome text (err e) = err (wrapped text e)
wrap_outcome text panic = panic

abbrev pub or_error : {A : Type 0} → Error ⊎ A → Outcome Error A
or_error (inl e) = err e
or_error (inr a) = ok a

pub wrap_outcome-eq-ok :
    {A : Type 0} (text : String) (o : Outcome Error A) {a : A}
    → wrap_outcome text o ≡ ok a
    → o ≡ ok a
wrap_outcome-eq-ok text (ok a) h = h
wrap_outcome-eq-ok text (err e) h = cc
wrap_outcome-eq-ok text panic h = cc

-- autoscalingv1.CrossVersionObjectReference
pub record ResourceRef : Type 0 where
  pub kind : String
  pub name : String

-- core.NamedResourceReference
pub record NamedResource : Type 0 where
  pub name : String
  pub resource_ref : ResourceRef

-- core.Extension; the raw bytes of the provider configuration
pub record ShootExtension : Type 0 where
  pub type_name : String
  pub provider_config : Option String
  pub disabled : Option Bool

-- core.Shoot
pub record Shoot : Type 0 where
  pub namespace : String
  pub extensions : List ShootExtension
  pub resources : List NamedResource

-- types.NamespacedName
pub record ObjectKey : Type 0 where
  pub namespace : String
  pub name : String

-- corev1.Secret
pub record Secret : Type 0 where
  pub key : ObjectKey
  pub immutable : Option Bool
  pub entries : Map String

-- corev1.ConfigMap
pub record ConfigMap : Type 0 where
  pub key : ObjectKey
  pub immutable : Option Bool
  pub entries : Map String
