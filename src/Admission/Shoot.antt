-- ===== src/Admission/Shoot.antt =====
-- shoot.go: Validate, and the lookups that it makes in a Shoot.
pub mod Admitted
pub mod References
pub mod Laws
pub mod NoPanic
use gardener_extension_shoot.Common.{
  String, ℕ, suc, List, [], ◌∷◌, Option, none, some, Bool, true, false, not, str_eq, if◌then◌else◌,
  concat, ◌⊎◌, inl, inr,
}
use gardener_extension_shoot.Common.Outcome.{Outcome, ok, err, panic, ◌>>=◌, ◌>>◌, deref, check}
use gardener_extension_shoot.Api.{Tls, AuditConfig, extension_type}
use gardener_extension_shoot.Field.{FieldPath, new_path, child, index, required}
use gardener_extension_shoot.Gardener.{
  Error, message, wrapped, field_error, NamedResource, ShootExtension, Shoot, ObjectKey,
}
use gardener_extension_shoot.Go.Strconv.{Unicode}
use gardener_extension_shoot.Validation.Patterns.{Checker}
use gardener_extension_shoot.Validation.{validate_rsyslog_relp_config}
use gardener_extension_shoot.Admission.Contents.{
  Api, to_aggregate, wrap, validate_rsyslog_relp_secret, validate_audit_config_map,
}

-- client.Object: a pointer to a Shoot, which may be nil, or an object of another type, by its name
pub data Object : Type 0 where
  a_shoot : Shoot → Object
  nil_shoot : Object
  other_object : String → Object

unfoldable pub is_extension_enabled : Option ShootExtension → Bool
is_extension_enabled none = false
is_extension_enabled (some ext) = elim ext.disabled [ some disabled ↦ not disabled | none ↦ true ]

-- The loop that looks for the extension, from an index on; the path tells where it stands.
unfoldable pub find_extension : ℕ → List ShootExtension → Option (ShootExtension × FieldPath)
find_extension i [] = none
find_extension i (ex ∷ exs) =
    if str_eq ex.type_name extension_type
    then some (ex, index (new_path "spec" ("extensions" ∷ [])) i)
    else find_extension (suc i) exs

-- the loop of getReferencedResourceName, and what is behind it
unfoldable pub find_resource_name : List NamedResource → String → String → Outcome Error String
find_resource_name [] kind name =
    err (message (concat ("missing or invalid referenced resource: " ∷ name ∷ [])))
find_resource_name (ref ∷ refs) kind name =
    if str_eq ref.name name
    then (if not (str_eq ref.resource_ref.kind kind)
        then err (
            message (
              concat (
                "invalid referenced resource, expected kind " ∷ kind ∷ ", not "
                ∷ ref.resource_ref.kind ∷ ": " ∷ ref.resource_ref.name ∷ [])))
        else ok ref.resource_ref.name)
    else find_resource_name refs kind name

unfoldable pub get_referenced_resource_name : Option Shoot → String → String → Outcome Error String
unfolding find_resource_name
get_referenced_resource_name none kind name = find_resource_name [] kind name
get_referenced_resource_name (some shoot) kind name = find_resource_name shoot.resources kind name

-- The error that Validate makes of an error of the API reader.
abbrev pub read_error : Api → String → ObjectKey → Error → Error
read_error api kind key e =
    if api.is_not_found e
    then message (concat ("referenced " ∷ kind ∷ " " ∷ api.show_key key ∷ " does not exist" ∷ []))
    else wrapped
        (concat
          ("failed to get referenced " ∷ kind ∷ " " ∷ api.show_key key ∷ " with error: " ∷ []))
        e

abbrev pub read_object {ℓ} : {A : Type ℓ} → Api → String → ObjectKey → Error ⊎ A → Outcome Error A
read_object api kind key (inl e) = err (read_error api kind key e)
read_object api kind key (inr a) = ok a

-- `if p != nil { return f(*p) }`
abbrev pub if_set {ℓ} :
    {A : Type ℓ} → Option A → (A → Outcome Error (Unit {0})) → Outcome Error (Unit {0})
if_set none f = ok tt
if_set (some a) f = f a

module _ (unicode : Unicode) (checker : Checker) (api : Api) where
  -- the secret that an enabled TLS configuration refers to
  unfoldable pub validate_secret_reference : Shoot → String → Outcome Error (Unit {0})
  unfolding get_referenced_resource_name validate_rsyslog_relp_secret
  validate_secret_reference shoot reference = do
    name ← get_referenced_resource_name (some shoot) "Secret" reference
    let key : ObjectKey = record { namespace = shoot.namespace; name = name }
    secret ← read_object api "secret" key (api.get_secret key)
    validate_rsyslog_relp_secret api secret

  -- the block under `rsyslogRelpConfig.TLS != nil && rsyslogRelpConfig.TLS.Enabled`
  unfoldable pub validate_tls_secret : Shoot → Option Tls → Outcome Error (Unit {0})
  unfolding validate_secret_reference
  validate_tls_secret shoot none = ok tt
  validate_tls_secret shoot (some tls) =
      if tls.enabled
      then (deref tls.secret_reference_name >>= validate_secret_reference shoot)
      else ok tt

  -- the ConfigMap that an enabled audit configuration refers to
  unfoldable pub validate_audit_reference : Shoot → String → Outcome Error (Unit {0})
  unfolding get_referenced_resource_name validate_audit_config_map
  validate_audit_reference shoot reference = do
    name ← get_referenced_resource_name (some shoot) "ConfigMap" reference
    let key : ObjectKey = record { namespace = shoot.namespace; name = name }
    config_map ← read_object api "configMap" key (api.get_config_map key)
    validate_audit_config_map api config_map

  -- the block under `AuditConfig != nil && AuditConfig.Enabled && ConfigMapReferenceName != nil`
  unfoldable pub validate_audit_config : Shoot → Option AuditConfig → Outcome Error (Unit {0})
  unfolding validate_audit_reference
  validate_audit_config shoot none = ok tt
  validate_audit_config shoot (some audit) =
      if audit.enabled
      then if_set audit.config_map_reference_name (validate_audit_reference shoot)
      else ok tt

  -- the rest of Validate, for an extension that is enabled
  unfoldable pub validate_provider_config :
      Shoot → Option String → FieldPath → Outcome Error (Unit {0})
  unfolding validate_tls_secret validate_audit_config
  validate_provider_config shoot none path = err (
      field_error (
        required path
          "Rsyslog relp configuration is required when using gardener-extension-shoot-rsyslog-relp"))
  validate_provider_config shoot (some raw) path = do
    config ← wrap "could not decode rsyslog relp configuration: " (api.decode_config raw)
    check (to_aggregate (validate_rsyslog_relp_config unicode checker config path))
    validate_tls_secret shoot config.tls
    validate_audit_config shoot config.audit_config

  -- The extension is a nil pointer if there is none, and is then not enabled.
  unfoldable pub validate_extension :
      Shoot → Option (ShootExtension × FieldPath) → Outcome Error (Unit {0})
  unfolding is_extension_enabled validate_provider_config
  validate_extension shoot none = if not (is_extension_enabled none) then ok tt else panic
  validate_extension shoot (some (ext, path)) =
      if not (is_extension_enabled (some ext))
      then ok tt
      else validate_provider_config shoot ext.provider_config (child path "providerConfig")

  -- A nil pointer to a Shoot passes the type assertion, and the loop dereferences it.
  unfoldable pub validate : Object → Outcome Error (Unit {0})
  unfolding find_extension validate_extension
  validate (other_object type_name) = err (message (concat ("wrong object type " ∷ type_name ∷ [])))
  validate nil_shoot = panic
  validate (a_shoot shoot) = validate_extension shoot (find_extension 0 shoot.extensions)
