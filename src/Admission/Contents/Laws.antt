-- ===== src/Admission/Contents/Laws.antt =====
-- Which secrets and ConfigMaps the checks accept.
use gardener_extension_shoot.Common.{
  String, lookup, length, HasDistinctKeys, none, some, true, eq_iff, ◌≡◌, ◌≢◌, ◌↔◌, ◌⊎◌, inl, inr,
  arith, Option-cases, Sum-cases,
}
use gardener_extension_shoot.Common.Keys.{length-eq-one_iff, length-eq-three_iff}
use gardener_extension_shoot.Common.Outcome.{ok}
use gardener_extension_shoot.Api.{
  Auditd, certificate_authority_key, client_certificate_key, private_key_key,
  auditd_config_map_data_key,
}
use gardener_extension_shoot.Gardener.{Error, Secret, ConfigMap}
use gardener_extension_shoot.Admission.Contents.{
  Api, validate_rsyslog_relp_secret, validate_audit_config_map,
}

-- An immutable secret with the entries "ca", "crt" and "key", and no other.
pub record IsRelpSecret (secret : Secret) : Type 0 where
  pub immutable : secret.immutable ≡ some true
  pub authority : lookup certificate_authority_key secret.entries ≢ none
  pub certificate : lookup client_certificate_key secret.entries ≢ none
  pub private_key : lookup private_key_key secret.entries ≢ none
  pub only :
      (k : String)
      → lookup k secret.entries ≢ none
      → (k ≡ certificate_authority_key) ⊎ (k ≡ client_certificate_key) ⊎ (k ≡ private_key_key)

-- An immutable ConfigMap with the one entry "auditd", which is decoded to rules that are not empty.
pub record IsAuditConfigMap (api : Api) (config_map : ConfigMap) : Type 0 where
  pub immutable : config_map.immutable ≡ some true
  pub contents : String
  pub found : lookup auditd_config_map_data_key config_map.entries ≡ some contents
  pub only : (k : String) → lookup k config_map.entries ≢ none → k ≡ auditd_config_map_data_key
  pub contents_given : contents ≢ ""
  pub auditd : Auditd
  pub decoded : api.decode_auditd contents ≡ inr auditd
  pub rules_given : auditd.audit_rules ≢ ""

keys_differ :
    (certificate_authority_key ≢ client_certificate_key)
    × (certificate_authority_key ≢ private_key_key)
    × (client_certificate_key ≢ private_key_key)
keys_differ = ground (
  arith,
  eq_iff certificate_authority_key client_certificate_key,
  eq_iff certificate_authority_key private_key_key,
  eq_iff client_certificate_key private_key_key,
)

module _ (api : Api) where
  validate_rsyslog_relp_secret-eq-ok_size :
      (secret : Secret)
      → (validate_rsyslog_relp_secret api secret ≡ ok tt) ↔ (
          (secret.immutable ≡ some true)
          × (lookup certificate_authority_key secret.entries ≢ none)
          × (lookup client_certificate_key secret.entries ≢ none)
          × (lookup private_key_key secret.entries ≢ none)
          × (length secret.entries ≡ 3))
  unfolding validate_rsyslog_relp_secret
  validate_rsyslog_relp_secret-eq-ok_size secret = ground arith

  -- The check passes exactly the relp secrets, where the entries have distinct keys.
  pub validate_rsyslog_relp_secret-eq-ok_iff :
      (secret : Secret)
      → HasDistinctKeys secret.entries
      → (validate_rsyslog_relp_secret api secret ≡ ok tt) ↔ IsRelpSecret secret
  validate_rsyslog_relp_secret-eq-ok_iff secret d =
      let (ab, ac, bc) = keys_differ in
      let parts = validate_rsyslog_relp_secret-eq-ok_size secret in
      let three = length-eq-three_iff _ _ _ secret.entries ab ac bc d in
      (
        λ e.
            let (immutable, a, c, k, size) = parts.0 e in
            record {
              immutable = immutable;
              authority = a;
              certificate = c;
              private_key = k;
              only = (three a c k).0 size;
            },
        λ h. parts.1 (
          h.immutable,
          h.authority,
          h.certificate,
          h.private_key,
          (three h.authority h.certificate h.private_key).1 h.only,
        ),
      )

  -- The rest of the check, for an entry that is there and decoded.
  validate_audit_config_map_decoded :
      (config_map : ConfigMap) (contents : String) (auditd : Auditd)
      → lookup auditd_config_map_data_key config_map.entries ≡ some contents
      → api.decode_auditd contents ≡ inr auditd
      → (validate_audit_config_map api config_map ≡ ok tt) ↔ (
          (config_map.immutable ≡ some true)
          × (length config_map.entries ≡ 1)
          × (contents ≢ "")
          × (auditd.audit_rules ≢ ""))
  unfolding validate_audit_config_map
  validate_audit_config_map_decoded config_map contents auditd found decoded =
      ground (arith, eq_iff contents "", eq_iff auditd.audit_rules "")

  -- The check does not pass without the entry, or if it is not decoded.
  validate_audit_config_map_missing :
      (config_map : ConfigMap)
      → lookup auditd_config_map_data_key config_map.entries ≡ none
      → validate_audit_config_map api config_map ≢ ok tt
  unfolding validate_audit_config_map
  validate_audit_config_map_missing config_map missing = ground arith

  validate_audit_config_map_undecoded :
      (config_map : ConfigMap) (contents : String) (e : Error)
      → lookup auditd_config_map_data_key config_map.entries ≡ some contents
      → api.decode_auditd contents ≡ inl e
      → validate_audit_config_map api config_map ≢ ok tt
  unfolding validate_audit_config_map
  validate_audit_config_map_undecoded config_map contents e found undecoded = ground arith

  module _ (config_map : ConfigMap) (d : HasDistinctKeys config_map.entries) where
    IsAuditConfigMap-of_ok :
        validate_audit_config_map api config_map ≡ ok tt → IsAuditConfigMap api config_map
    IsAuditConfigMap-of_ok e =
        elim (Option-cases (lookup auditd_config_map_data_key config_map.entries)) [
          | inl missing ↦ absurd (validate_audit_config_map_missing config_map missing e)
          | inr (contents, found) ↦ elim (Sum-cases (api.decode_auditd contents)) [
            | inl (x, undecoded) ↦
                absurd (validate_audit_config_map_undecoded config_map contents x found undecoded e)
            | inr (auditd, decoded) ↦
                let (immutable, one, given, rules) =
                  (validate_audit_config_map_decoded config_map contents auditd found decoded).0
                    e in
                record {
                  immutable = immutable;
                  contents = contents;
                  found = found;
                  only =
                      (length-eq-one_iff auditd_config_map_data_key config_map.entries d
                          (ground arith)).0
                        one;
                  contents_given = given;
                  auditd = auditd;
                  decoded = decoded;
                  rules_given = rules;
                }
          ]
        ]

    ok_of_IsAuditConfigMap :
        IsAuditConfigMap api config_map → validate_audit_config_map api config_map ≡ ok tt
    ok_of_IsAuditConfigMap h =
        let one =
          (length-eq-one_iff auditd_config_map_data_key config_map.entries d
              (ground (arith, h.found))).1
            h.only in
        (validate_audit_config_map_decoded config_map h.contents h.auditd h.found h.decoded).1
          (h.immutable, one, h.contents_given, h.rules_given)

  -- The check passes exactly the audit ConfigMaps, where the entries have distinct keys.
  pub validate_audit_config_map-eq-ok_iff :
      (config_map : ConfigMap)
      → HasDistinctKeys config_map.entries
      → (validate_audit_config_map api config_map ≡ ok tt) ↔ IsAuditConfigMap api config_map
  validate_audit_config_map-eq-ok_iff config_map d =
      (IsAuditConfigMap-of_ok config_map d, ok_of_IsAuditConfigMap config_map d)
