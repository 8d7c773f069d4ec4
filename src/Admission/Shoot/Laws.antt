-- ===== src/Admission/Shoot/Laws.antt =====
-- Validate lets exactly the admitted Shoots through.
use gardener_extension_shoot.Common.{
  String, [], ◌∷◌, Option, none, some, Bool, true, false, ◌≡◌, ◌↔◌, ◌⊎◌, inl, inr, arith, refl,
  Sum-cases, if◌then◌else◌,
}
use gardener_extension_shoot.Common.Outcome.{Outcome, ok, check, deref, ◌>>=◌, ◌>>◌}
use gardener_extension_shoot.Common.Outcome.Laws.{through, >>-eq-ok_iff}
use gardener_extension_shoot.Api.{RsyslogRelpConfig, Tls, AuditConfig}
use gardener_extension_shoot.Field.{FieldPath, child, ErrorList}
use gardener_extension_shoot.Gardener.{Error, ShootExtension, Shoot, ObjectKey}
use gardener_extension_shoot.Go.Strconv.{Unicode}
use gardener_extension_shoot.Validation.{validate_rsyslog_relp_config}
use gardener_extension_shoot.Validation.Patterns.{Checker}
use gardener_extension_shoot.Validation.Accepted.{IsAccepted}
use gardener_extension_shoot.Validation.Accepts.{validate-eq-nil_iff}
use gardener_extension_shoot.Admission.Contents.{
  Api, to_aggregate, validate_rsyslog_relp_secret, validate_audit_config_map,
}
use gardener_extension_shoot.Admission.Contents.Laws.{
  validate_rsyslog_relp_secret-eq-ok_iff, validate_audit_config_map-eq-ok_iff,
}
use gardener_extension_shoot.Admission.Shoot.{
  if_set, a_shoot, is_extension_enabled, get_referenced_resource_name, validate_secret_reference,
  validate_tls_secret, read_object, validate_audit_reference, validate_audit_config,
  validate_provider_config, validate_extension, validate,
}
use gardener_extension_shoot.Admission.Shoot.Admitted.{
  HasMaps, key_in, HasSecret, HasTlsSecret, IsTlsAdmitted, HasAuditMap, IsReferenceAdmitted,
  IsAuditAdmitted, IsConfigAdmitted, IsExtensionAdmitted, IsAdmitted,
}
use gardener_extension_shoot.Admission.Shoot.References.{
  get_referenced_resource_name_iff, find_extension-first,
}

to_aggregate-check_iff :
    {es : ErrorList} {P : Type 0} → (es ≡ []) ↔ P → (check (to_aggregate es) ≡ ok tt) ↔ P
to_aggregate-check_iff {es = []} p = (λ e. p.0 refl, λ h. refl)
to_aggregate-check_iff {es = x ∷ es} p = (λ e. cc, λ h. cc (p.1 h))

read_object-eq-ok :
    {A : Type 0} (api : Api) (kind : String) (key : ObjectKey) (r : Error ⊎ A) {a : A}
    → read_object api kind key r ≡ ok a
    → r ≡ inr a
read_object-eq-ok api kind key (inl e) h = cc
read_object-eq-ok api kind key (inr b) h = cc

guarded_iff :
    (b : Bool) (m : Outcome Error (Unit {0})) {P : Type 0}
    → (m ≡ ok tt) ↔ P
    → ((if b then m else ok tt) ≡ ok tt) ↔ (b ≡ true → P)
guarded_iff true m p = (λ e on. p.0 e, λ h. p.1 (h refl))
guarded_iff false m p = (λ e on. cc, λ h. refl)

module _ (unicode : Unicode) (checker : Checker) (api : Api) (maps : HasMaps api)
    (shoot : Shoot) where
  validate_secret_reference-eq-ok_iff :
      (reference : String)
      → (validate_secret_reference unicode checker api shoot reference ≡ ok tt)
        ↔ HasSecret unicode checker api shoot reference
  unfolding validate_secret_reference
  validate_secret_reference-eq-ok_iff reference = (
    λ e.
        let (name, named, e₁) =
          through _ (get_referenced_resource_name (some shoot) "Secret" reference) e in
        let (secret, read, e₂) = through (validate_rsyslog_relp_secret api) _ e₁ in
        let stored = read_object-eq-ok api "secret" (key_in shoot name) _ read in
        let distinct = maps.secrets _ secret stored in
        record {
          name = name;
          refers = (get_referenced_resource_name_iff shoot "Secret" reference name).0 named;
          secret = secret;
          stored = stored;
          content = (validate_rsyslog_relp_secret-eq-ok_iff api secret distinct).0 e₂;
        },
    λ h.
        let named = (get_referenced_resource_name_iff shoot "Secret" reference h.name).1 h.refers in
        let distinct = maps.secrets _ h.secret h.stored in
        rw (named, h.stored)
          ((validate_rsyslog_relp_secret-eq-ok_iff api h.secret distinct).1 h.content),
  )

  validate_audit_reference-eq-ok_iff :
      (reference : String)
      → (validate_audit_reference unicode checker api shoot reference ≡ ok tt)
        ↔ HasAuditMap unicode checker api shoot reference
  unfolding validate_audit_reference
  validate_audit_reference-eq-ok_iff reference = (
    λ e.
        let (name, named, e₁) =
          through _ (get_referenced_resource_name (some shoot) "ConfigMap" reference) e in
        let (config_map, read, e₂) = through (validate_audit_config_map api) _ e₁ in
        let stored = read_object-eq-ok api "configMap" (key_in shoot name) _ read in
        let distinct = maps.config_maps _ config_map stored in
        record {
          name = name;
          refers = (get_referenced_resource_name_iff shoot "ConfigMap" reference name).0 named;
          config_map = config_map;
          stored = stored;
          content = (validate_audit_config_map-eq-ok_iff api config_map distinct).0 e₂;
        },
    λ h.
        let named =
          (get_referenced_resource_name_iff shoot "ConfigMap" reference h.name).1 h.refers in
        let distinct = maps.config_maps _ h.config_map h.stored in
        rw (named, h.stored)
          ((validate_audit_config_map-eq-ok_iff api h.config_map distinct).1 h.content),
  )

  validate_tls_secret-eq-ok_iff :
      (tls : Option Tls)
      → (validate_tls_secret unicode checker api shoot tls ≡ ok tt)
        ↔ IsTlsAdmitted unicode checker api shoot tls
  unfolding validate_tls_secret
  validate_tls_secret-eq-ok_iff none = (λ e. tt, λ h. refl)
  validate_tls_secret-eq-ok_iff (some tls) =
      guarded_iff tls.enabled _ (dereferenced tls.secret_reference_name)
    where
      dereferenced :
          (reference : Option String)
          → ((deref reference >>= validate_secret_reference unicode checker api shoot) ≡ ok tt)
            ↔ HasTlsSecret unicode checker api shoot reference
      dereferenced none = (λ e. cc, λ h. absurd h)
      dereferenced (some reference) = validate_secret_reference-eq-ok_iff reference

  validate_audit_config-eq-ok_iff :
      (audit : Option AuditConfig)
      → (validate_audit_config unicode checker api shoot audit ≡ ok tt)
        ↔ IsAuditAdmitted unicode checker api shoot audit
  unfolding validate_audit_config
  validate_audit_config-eq-ok_iff none = (λ e. tt, λ h. refl)
  validate_audit_config-eq-ok_iff (some audit) =
      guarded_iff audit.enabled _ (referenced audit.config_map_reference_name)
    where
      referenced :
          (reference : Option String)
          → (if_set reference (validate_audit_reference unicode checker api shoot) ≡ ok tt)
            ↔ IsReferenceAdmitted unicode checker api shoot reference
      referenced none = (λ e. tt, λ h. refl)
      referenced (some reference) = validate_audit_reference-eq-ok_iff reference

  -- the steps behind the decoder
  validate_decoded-eq-ok_iff :
      (config : RsyslogRelpConfig) (path : FieldPath)
      → ((check (to_aggregate (validate_rsyslog_relp_config unicode checker config path))
            >> (validate_tls_secret unicode checker api shoot config.tls
                >> validate_audit_config unicode checker api shoot config.audit_config))
          ≡ ok tt)
        ↔ (IsAccepted unicode checker config
            × (IsTlsAdmitted unicode checker api shoot config.tls
                × IsAuditAdmitted unicode checker api shoot config.audit_config))
  validate_decoded-eq-ok_iff config path =
      >>-eq-ok_iff (to_aggregate-check_iff (validate-eq-nil_iff unicode checker config path)) (
        >>-eq-ok_iff (validate_tls_secret-eq-ok_iff config.tls)
          (validate_audit_config-eq-ok_iff config.audit_config))

  IsConfigAdmitted-of_ok :
      (raw : String) (path : FieldPath)
      → validate_provider_config unicode checker api shoot (some raw) path ≡ ok tt
      → IsConfigAdmitted unicode checker api shoot (some raw)
  unfolding validate_provider_config
  IsConfigAdmitted-of_ok raw path e = elim (Sum-cases (api.decode_config raw)) [
    | inl (x, undecoded) ↦ absurd (ground arith)
    | inr (config, decoded) ↦
        let (accepted, (tls, audit)) =
          (validate_decoded-eq-ok_iff config path).0 (rw decoded at e) in
        record {
          raw = raw;
          provided = refl;
          config = config;
          decoded = decoded;
          accepted = accepted;
          tls = tls;
          audit = audit;
        }
  ]

  ok_of_IsConfigAdmitted :
      (provider_config : Option String) (path : FieldPath)
      → IsConfigAdmitted unicode checker api shoot provider_config
      → validate_provider_config unicode checker api shoot provider_config path ≡ ok tt
  unfolding validate_provider_config
  ok_of_IsConfigAdmitted provider_config path h =
      rw (h.provided, h.decoded)
        ((validate_decoded-eq-ok_iff h.config path).1 (h.accepted, (h.tls, h.audit)))

  validate_provider_config-eq-ok_iff :
      (provider_config : Option String) (path : FieldPath)
      → (validate_provider_config unicode checker api shoot provider_config path ≡ ok tt)
        ↔ IsConfigAdmitted unicode checker api shoot provider_config
  unfolding validate_provider_config
  validate_provider_config-eq-ok_iff none path = (λ e. cc, λ h. ok_of_IsConfigAdmitted none path h)
  validate_provider_config-eq-ok_iff (some raw) path =
      (λ e. IsConfigAdmitted-of_ok raw path e, λ h. ok_of_IsConfigAdmitted (some raw) path h)

  validate_extension-eq-ok_iff :
      (ext : ShootExtension) (path : FieldPath)
      → (validate_extension unicode checker api shoot (some (ext, path)) ≡ ok tt)
        ↔ IsExtensionAdmitted unicode checker api shoot (some ext)
  unfolding validate_extension is_extension_enabled
  validate_extension-eq-ok_iff ext path =
      ground (
        arith,
        validate_provider_config-eq-ok_iff ext.provider_config (child path "providerConfig"),
      )

  -- Validate returns no error exactly for the admitted Shoots.
  pub validate-eq-ok_iff :
      (validate unicode checker api (a_shoot shoot) ≡ ok tt) ↔ IsAdmitted unicode checker api shoot
  unfolding validate validate_extension is_extension_enabled
  validate-eq-ok_iff = elim (find_extension-first 0 shoot.extensions) [
    | inl (missing, none_first) ↦ rw (missing, none_first) (λ e. tt, λ h. refl)
    | inr (ext, path, found, first) ↦ rw (found, first) (validate_extension-eq-ok_iff ext path)
  ]
