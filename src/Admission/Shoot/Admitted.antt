-- ===== src/Admission/Shoot/Admitted.antt =====
-- What a Shoot is that Validate admits, said without its errors.
use gardener_extension_shoot.Common.{
  String, List, [], ◌∷◌, HasDistinctKeys, Option, none, some, true, str_eq, ◌≡◌, ◌⊎◌, inr,
  if◌then◌else◌,
}
use gardener_extension_shoot.Api.{RsyslogRelpConfig, Tls, AuditConfig, extension_type}
use gardener_extension_shoot.Gardener.{
  NamedResource, ShootExtension, Shoot, ObjectKey, Secret, ConfigMap,
}
use gardener_extension_shoot.Go.Strconv.{Unicode}
use gardener_extension_shoot.Validation.Patterns.{Checker}
use gardener_extension_shoot.Validation.Accepted.{IsAccepted}
use gardener_extension_shoot.Admission.Contents.{Api}
use gardener_extension_shoot.Admission.Contents.Laws.{IsRelpSecret, IsAuditConfigMap}

-- the first extension of the type
unfoldable pub first_extension : List ShootExtension → Option ShootExtension
first_extension [] = none
first_extension (ex ∷ exs) =
    if str_eq ex.type_name extension_type then some ex else first_extension exs

-- the first resource with a name
unfoldable pub first_resource : String → List NamedResource → Option NamedResource
first_resource name [] = none
first_resource name (ref ∷ refs) =
    if str_eq ref.name name then some ref else first_resource name refs

-- The resource that a reference names is of a kind, and has an object's name.
pub record Refers (shoot : Shoot) (kind reference name : String) : Type 0 where
  pub resource : NamedResource
  pub found : first_resource reference shoot.resources ≡ some resource
  pub right_kind : resource.resource_ref.kind ≡ kind
  pub target : resource.resource_ref.name ≡ name

-- The objects that the API server has hold maps, which have one entry for a key.
pub record HasMaps (api : Api) : Type 0 where
  pub secrets :
      (key : ObjectKey) (secret : Secret)
      → api.get_secret key ≡ inr secret
      → HasDistinctKeys secret.entries
  pub config_maps :
      (key : ObjectKey) (config_map : ConfigMap)
      → api.get_config_map key ≡ inr config_map
      → HasDistinctKeys config_map.entries

abbrev pub key_in : Shoot → String → ObjectKey
key_in shoot name = record { namespace = shoot.namespace; name = name }

module _ (unicode : Unicode) (checker : Checker) (api : Api) (shoot : Shoot) where
  pub record HasSecret (reference : String) : Type 0 where
    pub name : String
    pub refers : Refers shoot "Secret" reference name
    pub secret : Secret
    pub stored : api.get_secret (key_in shoot name) ≡ inr secret
    pub content : IsRelpSecret secret

  abbrev pub HasTlsSecret : Option String → Type 0
  HasTlsSecret none = ⊥
  HasTlsSecret (some reference) = HasSecret reference

  abbrev pub IsTlsAdmitted : Option Tls → Type 0
  IsTlsAdmitted none = Unit
  IsTlsAdmitted (some tls) = tls.enabled ≡ true → HasTlsSecret tls.secret_reference_name

  pub record HasAuditMap (reference : String) : Type 0 where
    pub name : String
    pub refers : Refers shoot "ConfigMap" reference name
    pub config_map : ConfigMap
    pub stored : api.get_config_map (key_in shoot name) ≡ inr config_map
    pub content : IsAuditConfigMap api config_map

  abbrev pub IsReferenceAdmitted : Option String → Type 0
  IsReferenceAdmitted none = Unit
  IsReferenceAdmitted (some reference) = HasAuditMap reference

  abbrev pub IsAuditAdmitted : Option AuditConfig → Type 0
  IsAuditAdmitted none = Unit
  IsAuditAdmitted (some audit) =
      audit.enabled ≡ true → IsReferenceAdmitted audit.config_map_reference_name

  pub record IsConfigAdmitted (provider_config : Option String) : Type 0 where
    pub raw : String
    pub provided : provider_config ≡ some raw
    pub config : RsyslogRelpConfig
    pub decoded : api.decode_config raw ≡ inr config
    pub accepted : IsAccepted unicode checker config
    pub tls : IsTlsAdmitted config.tls
    pub audit : IsAuditAdmitted config.audit_config

  abbrev pub IsExtensionAdmitted : Option ShootExtension → Type 0
  IsExtensionAdmitted none = Unit
  IsExtensionAdmitted (some ext) = (ext.disabled ≡ some true) ⊎ IsConfigAdmitted ext.provider_config

  -- Either the extension is absent or disabled, or its configuration is admitted.
  abbrev pub IsAdmitted : Type 0
  IsAdmitted = IsExtensionAdmitted (first_extension shoot.extensions)
