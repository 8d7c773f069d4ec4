-- ===== src/Admission/Shoot/References.antt =====
-- getReferencedResourceName and the search for the extension, by the first entry that fits.
use gardener_extension_shoot.Common.{
  String, ℕ, suc, List, [], ◌∷◌, Option, none, some, str_eq, eq_iff, ◌≡◌, ◌≢◌, ◌↔◌, ◌⊎◌, inl, inr,
  arith, refl, Bool-cases, ap, ◌∙◌,
}
use gardener_extension_shoot.Common.Outcome.{ok, panic}
use gardener_extension_shoot.Api.{extension_type}
use gardener_extension_shoot.Field.{FieldPath, new_path, index}
use gardener_extension_shoot.Gardener.{NamedResource, ShootExtension, Shoot}
use gardener_extension_shoot.Admission.Shoot.{
  find_extension, find_resource_name, get_referenced_resource_name,
}
use gardener_extension_shoot.Admission.Shoot.Admitted.{first_extension, first_resource, Refers}

get_referenced_sound :
    (refs : List NamedResource) (kind reference name : String)
    → find_resource_name refs kind reference ≡ ok name
    → (ref : NamedResource) × (first_resource reference refs ≡ some ref)
      × (ref.resource_ref.kind ≡ kind)
      × (ref.resource_ref.name ≡ name)
unfolding first_resource find_resource_name
get_referenced_sound [] kind reference name h = cc
get_referenced_sound (r ∷ refs) kind reference name h =
    elim (Bool-cases (str_eq r.name reference)) [
      | inl same ↦ (r, ground arith, ground (arith, eq_iff r.resource_ref.kind kind), ground arith)
      | inr other ↦
          let (ref, found, right, target) =
            get_referenced_sound refs kind reference name (ground arith) in
          (ref, ground arith, right, target)
    ]

get_referenced_complete :
    (refs : List NamedResource) (kind reference : String) (ref : NamedResource)
    → first_resource reference refs ≡ some ref
    → ref.resource_ref.kind ≡ kind
    → find_resource_name refs kind reference ≡ ok ref.resource_ref.name
unfolding first_resource find_resource_name
get_referenced_complete [] kind reference ref h k = cc
get_referenced_complete (r ∷ refs) kind reference ref h k =
    ground (arith, get_referenced_complete refs kind reference ref, eq_iff r.resource_ref.kind kind)

-- The name of a referenced resource is found exactly if the first resource with the name of the
-- reference has the kind that is asked for.
pub get_referenced_resource_name_iff :
    (shoot : Shoot) (kind reference name : String)
    → (get_referenced_resource_name (some shoot) kind reference ≡ ok name)
      ↔ Refers shoot kind reference name
unfolding get_referenced_resource_name
get_referenced_resource_name_iff shoot kind reference name = (
  λ e.
      let (ref, found, right, target) =
        get_referenced_sound shoot.resources kind reference name e in
      record { resource = ref; found = found; right_kind = right; target = target },
  λ h.
      get_referenced_complete shoot.resources kind reference h.resource h.found h.right_kind
      ∙ ap ok h.target,
)

find_resource_name-ne-panic :
    (refs : List NamedResource) (kind reference : String)
    → find_resource_name refs kind reference ≢ panic
unfolding find_resource_name
find_resource_name-ne-panic [] kind reference = λ e. cc
find_resource_name-ne-panic (r ∷ refs) kind reference =
    ground (arith, find_resource_name-ne-panic refs kind reference)

pub get_referenced_resource_name-ne-panic :
    (shoot : Option Shoot) (kind reference : String)
    → get_referenced_resource_name shoot kind reference ≢ panic
unfolding get_referenced_resource_name
get_referenced_resource_name-ne-panic none kind reference =
    find_resource_name-ne-panic [] kind reference
get_referenced_resource_name-ne-panic (some shoot) kind reference =
    find_resource_name-ne-panic shoot.resources kind reference

-- The search goes by the type alone; only the path depends on the index.
pub find_extension-first :
    (i : ℕ) (exs : List ShootExtension)
    → ((find_extension i exs ≡ none) × (first_extension exs ≡ none))
      ⊎ ((ext : ShootExtension) × (path : FieldPath) × (find_extension i exs ≡ some (ext, path))
          × (first_extension exs ≡ some ext))
unfolding find_extension first_extension
find_extension-first i [] = inl (refl, refl)
find_extension-first i (ex ∷ exs) = elim (Bool-cases (str_eq ex.type_name extension_type)) [
  | inl same ↦ inr (ex, index (new_path "spec" ("extensions" ∷ [])) i, rw same, rw same)
  | inr other ↦ elim (find_extension-first (suc i) exs) [
    | inl (missing, none_first) ↦ inl (rw other missing, rw other none_first)
    | inr (ext, path, found, first) ↦ inr (ext, path, rw other found, rw other first)
  ]
]
