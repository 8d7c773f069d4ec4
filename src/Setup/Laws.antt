-- ===== src/Setup/Laws.antt =====
-- The extension or resource that is added is the one that the admission finds.
use gardener_extension_shoot.Common.{
  String, List, [], ◌∷◌, none, some, false, str_eq, eq_iff, if◌then◌else◌, ◌≡◌, ◌≢◌, refl, arith,
  ap, ◌∙◌, if_true,
}
use gardener_extension_shoot.Gardener.{NamedResource, ShootExtension, Shoot}
use gardener_extension_shoot.V1alpha1.{RsyslogRelpConfig}
use gardener_extension_shoot.Admission.Shoot.Admitted.{first_extension, first_resource, Refers}
use gardener_extension_shoot.Setup.{
  add_or_update, contains, remove, default_provider_config, apply_options, extension_name,
  resource_name, add_or_update_rsyslog_relp_extension, has_rsyslog_relp_extension,
  remove_rsyslog_relp_extension, add_or_update_resource_reference, remove_resource_reference,
  has_resource_reference,
}

module _ {A : Type 0} (named : A → String) where
  contains-remove :
      (name : String) (xs : List A) → contains named name (remove named name xs) ≡ false
  unfolding contains remove
  contains-remove name [] = refl
  contains-remove name (x ∷ xs) = ground (arith, contains-remove name xs)

  -- what is removed, and what is added in its place
  remove-add_or_update :
      (name : String) (a : A) (xs : List A)
      → named a ≡ name
      → remove named name (add_or_update named name a xs) ≡ remove named name xs
  unfolding remove add_or_update
  remove-add_or_update name a [] h = ground (arith, eq_iff (named a) name)
  remove-add_or_update name a (x ∷ xs) h =
      ground (arith, eq_iff (named a) name, remove-add_or_update name a xs h)

  -- What was not there before is all that is removed.
  remove-add_absent :
      (name : String) (a : A) (xs : List A)
      → named a ≡ name
      → contains named name xs ≡ false
      → remove named name (add_or_update named name a xs) ≡ xs
  unfolding remove add_or_update contains
  remove-add_absent name a [] h absent = ground (arith, eq_iff (named a) name)
  remove-add_absent name a (x ∷ xs) h absent =
      ground (arith, eq_iff (named a) name, remove-add_absent name a xs h)

  -- A removal keeps the elements of any other name.
  contains-remove_other :
      (name other : String) (xs : List A)
      → other ≢ name
      → contains named other (remove named name xs) ≡ contains named other xs
  unfolding contains remove
  contains-remove_other name other [] differ = refl
  contains-remove_other name other (x ∷ xs) differ = ground (
    arith,
    eq_iff (named x) name,
    eq_iff (named x) other,
    eq_iff other name,
    contains-remove_other name other xs differ,
  )

first_extension-add :
    (ext : ShootExtension) (exs : List ShootExtension)
    → ext.type_name ≡ "shoot-rsyslog-relp"
    → first_extension (add_or_update extension_name "shoot-rsyslog-relp" ext exs) ≡ some ext
unfolding first_extension add_or_update
first_extension-add ext [] h = rw h refl
first_extension-add ext (ex ∷ exs) h =
    ground (arith, eq_iff ext.type_name "shoot-rsyslog-relp", first_extension-add ext exs h)

first_resource-add :
    (name other : String) (ref : NamedResource) (refs : List NamedResource)
    → ref.name ≡ name
    → first_resource other (add_or_update resource_name name ref refs)
      ≡ (if str_eq name other then some ref else first_resource other refs)
unfolding first_resource add_or_update
first_resource-add name other ref [] h = ground (arith, h)
first_resource-add name other ref (r ∷ refs) h = ground (
  arith,
  eq_iff ref.name other,
  eq_iff name other,
  eq_iff r.name name,
  eq_iff r.name other,
  first_resource-add name other ref refs h,
)

-- After the extension is added or updated, the first extension of its type, which Validate reads, is
-- one that is not disabled and has the marshalled configuration. Removing it again undoes adding it:
-- the Shoot is as before, if it did not have the extension; in any case it is what removing the
-- extension from the Shoot gives at once, has no extension of the type, and has one of any other type
-- exactly if the Shoot had one.
pub add_or_update_rsyslog_relp_extension-remove :
    (marshal : RsyslogRelpConfig → String) (api_version : String)
    (opts : List (RsyslogRelpConfig → RsyslogRelpConfig)) (shoot : Shoot)
    → let added = add_or_update_rsyslog_relp_extension marshal api_version opts shoot in
      (first_extension added.extensions
        ≡ some (record {
          type_name = "shoot-rsyslog-relp";
          provider_config =
              some (marshal (apply_options opts (default_provider_config api_version)));
          disabled = none;
        }))
      × (has_rsyslog_relp_extension shoot ≡ false → remove_rsyslog_relp_extension added ≡ shoot)
      × (remove_rsyslog_relp_extension added ≡ remove_rsyslog_relp_extension shoot)
      × ((other : String)
          → other ≢ "shoot-rsyslog-relp"
          → contains extension_name other (remove_rsyslog_relp_extension added).extensions
            ≡ contains extension_name other shoot.extensions)
      × (has_rsyslog_relp_extension (remove_rsyslog_relp_extension added) ≡ false)
unfolding add_or_update_rsyslog_relp_extension remove_rsyslog_relp_extension
    has_rsyslog_relp_extension
add_or_update_rsyslog_relp_extension-remove marshal api_version opts shoot =
    let ext : ShootExtension = record {
      type_name = "shoot-rsyslog-relp";
      provider_config = some (marshal (apply_options opts (default_provider_config api_version)));
      disabled = none;
    } in
    let exs = shoot.extensions in
    let same = remove-add_or_update extension_name "shoot-rsyslog-relp" ext exs refl in
    (
      first_extension-add ext exs refl,
      λ absent.
          ap (λ es. record shoot { extensions = es })
            (remove-add_absent extension_name "shoot-rsyslog-relp" ext exs refl absent),
      ap (λ es. record shoot { extensions = es }) same,
      λ other differ.
          ap (contains extension_name other) same
          ∙ contains-remove_other extension_name "shoot-rsyslog-relp" other exs differ,
      contains-remove extension_name "shoot-rsyslog-relp"
          (add_or_update extension_name "shoot-rsyslog-relp" ext exs),
    )

-- After a resource reference is added or updated, the reference names the object, of the kind; the
-- other references name what they did. Removed again, there is none, and the Shoot is as before, if it
-- did not have the reference.
pub add_or_update_resource_reference-Refers :
    (shoot : Shoot) (reference kind name : String)
    → let added = add_or_update_resource_reference shoot reference kind name in
      Refers added kind reference name
      × ((other : String)
          → other ≢ reference
          → first_resource other added.resources ≡ first_resource other shoot.resources)
      × (has_resource_reference (remove_resource_reference added reference) reference ≡ false)
      × (has_resource_reference shoot reference ≡ false
          → remove_resource_reference added reference ≡ shoot)
unfolding add_or_update_resource_reference remove_resource_reference has_resource_reference
add_or_update_resource_reference-Refers shoot reference kind name =
    let ref : NamedResource = record {
      name = reference;
      resource_ref = record { kind = kind; name = name };
    } in
    let refs = shoot.resources in
    (
      record {
        resource = ref;
        found =
            first_resource-add reference reference ref refs refl
            ∙ if_true _ (some ref) _ ((eq_iff reference reference).1 refl);
        right_kind = refl;
        target = refl;
      },
      λ other differ.
          ground (arith, first_resource-add reference other ref refs refl, eq_iff reference other),
      contains-remove resource_name reference (add_or_update resource_name reference ref refs),
      λ absent.
          ap (λ rs. record shoot { resources = rs })
            (remove-add_absent resource_name reference ref refs refl absent),
    )
