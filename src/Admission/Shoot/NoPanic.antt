-- ===== src/Admission/Shoot/NoPanic.antt =====
-- Validate ends in a panic only for a nil Shoot: the other pointers that it dereferences are not nil
-- there.
use gardener_extension_shoot.Common.{
  String, [], ◌∷◌, Option, none, some, not, ◌≡◌, ◌≢◌, ◌↔◌, ◌⊎◌, inl, inr, arith, refl, Bool-cases,
}
use gardener_extension_shoot.Common.Outcome.{Outcome, ok, panic, check, deref, ◌>>=◌, ◌>>◌}
use gardener_extension_shoot.Common.Outcome.Laws.{>>=-ne-panic}
use gardener_extension_shoot.Api.{RsyslogRelpConfig, Tls, AuditConfig}
use gardener_extension_shoot.Field.{FieldPath, child, ErrorList}
use gardener_extension_shoot.Gardener.{Error, ShootExtension, Shoot, ObjectKey, Secret, ConfigMap}
use gardener_extension_shoot.Go.Strconv.{Unicode}
use gardener_extension_shoot.Validation.{validate_rsyslog_relp_config}
use gardener_extension_shoot.Validation.Patterns.{Checker}
use gardener_extension_shoot.Validation.Accepted.{IsNamed, IsTlsGiven}
use gardener_extension_shoot.Validation.Accepts.{validate-eq-nil_iff}
use gardener_extension_shoot.Admission.Contents.{
  Api, to_aggregate, wrap, validate_rsyslog_relp_secret, validate_audit_config_map,
}
use gardener_extension_shoot.Admission.Shoot.{
  Object, a_shoot, nil_shoot, other_object, is_extension_enabled, find_extension,
  get_referenced_resource_name, validate_secret_reference, validate_tls_secret, read_object, if_set,
  validate_audit_reference, validate_audit_config, validate_provider_config, validate_extension,
  validate,
}
use gardener_extension_shoot.Admission.Shoot.Admitted.{key_in}
use gardener_extension_shoot.Admission.Shoot.References.{get_referenced_resource_name-ne-panic}

secret_check-ne-panic :
    (api : Api) (secret : Secret) → validate_rsyslog_relp_secret api secret ≢ panic
unfolding validate_rsyslog_relp_secret
secret_check-ne-panic api secret = ground arith

map_check-ne-panic : (api : Api) (map : ConfigMap) → validate_audit_config_map api map ≢ panic
unfolding validate_audit_config_map
map_check-ne-panic api map = ground arith

read_object-ne-panic :
    {A : Type 0} (api : Api) (kind : String) (key : ObjectKey) (r : Error ⊎ A)
    → read_object api kind key r ≢ panic
read_object-ne-panic api kind key (inl e) = λ p. cc
read_object-ne-panic api kind key (inr a) = λ p. cc

wrap-ne-panic : {A : Type 0} (text : String) (r : Error ⊎ A) → wrap text r ≢ panic
wrap-ne-panic text (inl e) = λ p. cc
wrap-ne-panic text (inr a) = λ p. cc

check-ne-panic : (e : Option Error) → check e ≢ panic
check-ne-panic none = λ p. cc
check-ne-panic (some e) = λ p. cc

nil_of_check : (es : ErrorList) → check (to_aggregate es) ≡ ok tt → es ≡ []
nil_of_check [] h = refl
nil_of_check (e ∷ es) h = cc

module _ (unicode : Unicode) (checker : Checker) (api : Api) (shoot : Shoot) where
  validate_secret_reference-ne-panic :
      (reference : String) → validate_secret_reference unicode checker api shoot reference ≢ panic
  unfolding validate_secret_reference
  validate_secret_reference-ne-panic reference =
      let continue = λ (name : String).
        read_object api "secret" (key_in shoot name) (api.get_secret (key_in shoot name))
        >>= validate_rsyslog_relp_secret api in
      >>=-ne-panic (get_referenced_resource_name (some shoot) "Secret" reference) continue
        (get_referenced_resource_name-ne-panic (some shoot) "Secret" reference)
        λ name named.
          >>=-ne-panic
            (read_object api "secret" (key_in shoot name) (api.get_secret (key_in shoot name)))
            (validate_rsyslog_relp_secret api)
            (read_object-ne-panic api "secret" (key_in shoot name)
              (api.get_secret (key_in shoot name)))
            λ object read. secret_check-ne-panic api object

  validate_audit_reference-ne-panic :
      (reference : String) → validate_audit_reference unicode checker api shoot reference ≢ panic
  unfolding validate_audit_reference
  validate_audit_reference-ne-panic reference =
      let continue = λ (name : String).
        read_object api "configMap" (key_in shoot name) (api.get_config_map (key_in shoot name))
        >>= validate_audit_config_map api in
      >>=-ne-panic (get_referenced_resource_name (some shoot) "ConfigMap" reference) continue
        (get_referenced_resource_name-ne-panic (some shoot) "ConfigMap" reference)
        λ name named.
          >>=-ne-panic
            (read_object api "configMap" (key_in shoot name)
              (api.get_config_map (key_in shoot name)))
            (validate_audit_config_map api)
            (read_object-ne-panic api "configMap" (key_in shoot name)
              (api.get_config_map (key_in shoot name)))
            λ object read. map_check-ne-panic api object

  -- The reference that is dereferenced is there, by the validation before.
  dereferenced-ne-panic :
      (reference : Option String)
      → IsNamed reference
      → (deref reference >>= validate_secret_reference unicode checker api shoot) ≢ panic
  dereferenced-ne-panic none h = absurd h
  dereferenced-ne-panic (some reference) h = validate_secret_reference-ne-panic reference

  validate_tls_secret-ne-panic :
      (tls : Option Tls)
      → IsTlsGiven unicode checker tls
      → validate_tls_secret unicode checker api shoot tls ≢ panic
  unfolding validate_tls_secret
  validate_tls_secret-ne-panic none h = λ p. cc
  validate_tls_secret-ne-panic (some tls) h = elim (Bool-cases tls.enabled) [
    | inl on ↦ rw on (dereferenced-ne-panic tls.secret_reference_name (h.secret on))
    | inr off ↦ rw off (λ p. cc)
  ]

  if_set-ne-panic :
      (reference : Option String)
      → if_set reference (validate_audit_reference unicode checker api shoot) ≢ panic
  if_set-ne-panic none = λ p. cc
  if_set-ne-panic (some reference) = validate_audit_reference-ne-panic reference

  validate_audit_config-ne-panic :
      (audit : Option AuditConfig) → validate_audit_config unicode checker api shoot audit ≢ panic
  unfolding validate_audit_config
  validate_audit_config-ne-panic none = λ p. cc
  validate_audit_config-ne-panic (some audit) = elim (Bool-cases audit.enabled) [
    | inl on ↦ rw on (if_set-ne-panic audit.config_map_reference_name)
    | inr off ↦ rw off (λ p. cc)
  ]

  -- the steps behind the decoder
  abbrev validate_decoded : FieldPath → RsyslogRelpConfig → Outcome Error (Unit {0})
  validate_decoded path config =
      check (to_aggregate (validate_rsyslog_relp_config unicode checker config path))
      >> (validate_tls_secret unicode checker api shoot config.tls
          >> validate_audit_config unicode checker api shoot config.audit_config)

  validate_decoded-ne-panic :
      (path : FieldPath) (config : RsyslogRelpConfig) → validate_decoded path config ≢ panic
  validate_decoded-ne-panic path config =
      let errors = validate_rsyslog_relp_config unicode checker config path in
      let audit = validate_audit_config unicode checker api shoot config.audit_config in
      let tls = validate_tls_secret unicode checker api shoot config.tls in
      >>=-ne-panic (check (to_aggregate errors)) (λ _. tls >> audit)
        (check-ne-panic (to_aggregate errors))
        λ _ passed.
          let accepted =
            (validate-eq-nil_iff unicode checker config path).0 (nil_of_check errors passed) in
          >>=-ne-panic tls (λ _. audit) (validate_tls_secret-ne-panic config.tls accepted.tls)
            λ _ _. validate_audit_config-ne-panic config.audit_config

  validate_provider_config-ne-panic :
      (provider_config : Option String) (path : FieldPath)
      → validate_provider_config unicode checker api shoot provider_config path ≢ panic
  unfolding validate_provider_config
  validate_provider_config-ne-panic none path = λ p. cc
  validate_provider_config-ne-panic (some raw) path =
      >>=-ne-panic (wrap "could not decode rsyslog relp configuration: " (api.decode_config raw))
        (validate_decoded path) (wrap-ne-panic _ (api.decode_config raw))
        λ config decoded. validate_decoded-ne-panic path config

  validate_extension-ne-panic :
      (found : Option (ShootExtension × FieldPath))
      → validate_extension unicode checker api shoot found ≢ panic
  unfolding validate_extension is_extension_enabled
  validate_extension-ne-panic none = λ p. cc
  validate_extension-ne-panic (some (ext, path)) =
      elim (Bool-cases (not (is_extension_enabled (some ext)))) [
        | inl off ↦ rw off (λ p. cc)
        | inr on ↦
            rw on
              (validate_provider_config-ne-panic ext.provider_config (child path "providerConfig"))
      ]

-- Validate ends in a panic exactly if the object is a nil pointer to a Shoot. For every other object
-- it returns, with an error or without.
pub validate-eq-panic_iff :
    (unicode : Unicode) (checker : Checker) (api : Api) (object : Object)
    → (validate unicode checker api object ≡ panic) ↔ (object ≡ nil_shoot)
unfolding validate
validate-eq-panic_iff unicode checker api (other_object type_name) = (λ p. cc, λ e. cc)
validate-eq-panic_iff unicode checker api nil_shoot = (λ p. refl, λ e. refl)
validate-eq-panic_iff unicode checker api (a_shoot shoot) = (
  λ p.
      absurd (
        validate_extension-ne-panic unicode checker api shoot (find_extension 0 shoot.extensions)
          p),
  λ e. cc,
)
