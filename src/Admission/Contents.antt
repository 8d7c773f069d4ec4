-- ===== src/Admission/Contents.antt =====
-- The checks of shoot.go on the content of a secret and of a ConfigMap, and what Validate calls of
-- other packages.
pub mod Laws
use gardener_extension_shoot.Common.{
  String, [], ◌∷◌, Map, lookup, length, Option, none, some, Bool, true, false, not, ◌==◌, str_eq,
  concat, ◌⊎◌, inl, inr,
}
use gardener_extension_shoot.Common.Outcome.{Outcome, ok, err, ◌>>=◌, ◌>>◌, check}
use gardener_extension_shoot.Api.{
  RsyslogRelpConfig, Auditd, certificate_authority_key, client_certificate_key, private_key_key,
  auditd_config_map_data_key,
}
use gardener_extension_shoot.Field.{ErrorList}
use gardener_extension_shoot.Gardener.{
  Error, message, wrapped, aggregate, ObjectKey, Secret, ConfigMap,
}
use gardener_extension_shoot.Validation.{validate_auditd, is_nil}

-- What Validate calls: the decoder, the reader of the API server, errors.IsNotFound, Error(), and
-- the String method of an object key.
pub record Api : Type 0 where
  pub decode_config : String → Error ⊎ RsyslogRelpConfig
  pub decode_auditd : String → Error ⊎ Auditd
  pub get_secret : ObjectKey → Error ⊎ Secret
  pub get_config_map : ObjectKey → Error ⊎ ConfigMap
  pub is_not_found : Error → Bool
  pub show_key : ObjectKey → String

-- ErrorList.ToAggregate: nil for an empty list
abbrev pub to_aggregate : ErrorList → Option Error
to_aggregate [] = none
to_aggregate (e ∷ es) = some (aggregate (e ∷ es))

-- `ptr.Deref(p, false)`
abbrev pub deref_or_false : Option Bool → Bool
deref_or_false none = false
deref_or_false (some b) = b

-- `v, ok := m[k]; if !ok { return err }`
abbrev pub require_key : Map String → String → Error → Outcome Error String
require_key m k e = elim (lookup k m) [ some v ↦ ok v | none ↦ err e ]

-- `if cond { return err }`
abbrev pub fail_if : Bool → Error → Outcome Error (Unit {0})
fail_if true e = err e
fail_if false e = ok tt

-- The result of a call, with fmt.Errorf("...%w", err) round its error.
abbrev pub wrap {ℓ} : {A : Type ℓ} → String → Error ⊎ A → Outcome Error A
wrap text (inl e) = err (wrapped text e)
wrap text (inr a) = ok a

module _ (api : Api) where
  unfoldable pub validate_rsyslog_relp_secret : Secret → Outcome Error (Unit {0})
  validate_rsyslog_relp_secret secret =
      let name = api.show_key secret.key in
      do
        fail_if (is_nil (lookup certificate_authority_key secret.entries)) (
            message (
              concat
                ("secret " ∷ name ∷ " is missing " ∷ certificate_authority_key ∷ " value" ∷ [])))
        fail_if (is_nil (lookup client_certificate_key secret.entries)) (
            message
              (concat ("secret " ∷ name ∷ " is missing " ∷ client_certificate_key ∷ " value" ∷ [])))
        fail_if (is_nil (lookup private_key_key secret.entries))
            (message (concat ("secret " ∷ name ∷ " is missing " ∷ private_key_key ∷ " value" ∷ [])))
        fail_if (not (deref_or_false secret.immutable))
            (message (concat ("secret " ∷ name ∷ " must be immutable" ∷ [])))
        fail_if (not (length secret.entries == 3))
            (message (concat ("secret " ∷ name ∷ " should have only three data entries" ∷ [])))

  unfoldable pub validate_audit_config_map : ConfigMap → Outcome Error (Unit {0})
  unfolding validate_auditd
  validate_audit_config_map config_map =
      let name = api.show_key config_map.key in
      do
        fail_if (not (deref_or_false config_map.immutable))
            (message (concat ("configMap " ∷ name ∷ " must be immutable" ∷ [])))
        auditd_config ← require_key config_map.entries auditd_config_map_data_key (
            message (
              concat (
                "missing 'data." ∷ auditd_config_map_data_key ∷ "' field in configMap " ∷ name
                ∷ [])))
        fail_if (not (length config_map.entries == 1))
            (message (concat ("configmap " ∷ name ∷ " should have only one entry" ∷ [])))
        fail_if (str_eq auditd_config "") (
            message (
              concat
                ("empty auditd config. Provide non-empty auditd config in configMap " ∷ name ∷ [])))
        auditd ←
            wrap
              (concat (
                "could not decode 'data." ∷ auditd_config_map_data_key ∷ "' field of configMap "
                ∷ name ∷ ": " ∷ []))
              (api.decode_auditd auditd_config)
        check (to_aggregate (validate_auditd auditd))
