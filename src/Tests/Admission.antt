-- ===== src/Tests/Admission.antt =====
-- The admission of a Shoot.
use gardener_extension_shoot.Common.{[], some, ◌≡◌, ◌↔◌, refl}
use gardener_extension_shoot.Common.Outcome.{ok, err, panic}
use gardener_extension_shoot.Gardener.{message, Shoot}
use gardener_extension_shoot.Admission.Contents.{
  validate_rsyslog_relp_secret, validate_audit_config_map,
}
use gardener_extension_shoot.Admission.Contents.Laws.{
  IsRelpSecret, IsAuditConfigMap, validate_rsyslog_relp_secret-eq-ok_iff,
  validate_audit_config_map-eq-ok_iff,
}
use gardener_extension_shoot.Admission.Shoot.{
  Object, a_shoot, nil_shoot, validate, get_referenced_resource_name,
}
use gardener_extension_shoot.Admission.Shoot.Admitted.{IsAdmitted, Refers}
use gardener_extension_shoot.Admission.Shoot.Laws.{validate-eq-ok_iff}
use gardener_extension_shoot.Admission.Shoot.NoPanic.{validate-eq-panic_iff}
use gardener_extension_shoot.Admission.Shoot.References.{get_referenced_resource_name_iff}
use gardener_extension_shoot.Tests.Data.{
  latin, checker, shoot, secret, config_map, secret_distinct, config_map_distinct, api, maps,
  validation,
}

admitted : validate latin checker api (a_shoot shoot) ≡ ok tt
unfolding validate validation
admitted = refl

abbrev unreferenced : Shoot
unreferenced = record shoot { resources = [] }

refused :
    validate latin checker api (a_shoot unreferenced)
    ≡ err (message "missing or invalid referenced resource: relp-tls")
unfolding validate validation
refused = refl

validate-eq-ok_example :
    (validate latin checker api (a_shoot shoot) ≡ ok tt) ↔ IsAdmitted latin checker api shoot
validate-eq-ok_example = validate-eq-ok_iff latin checker api maps shoot

validate-eq-panic_example :
    (validate latin checker api (a_shoot shoot) ≡ panic)
    ↔ (◌≡◌ {A = Object} (a_shoot shoot) nil_shoot)
validate-eq-panic_example = validate-eq-panic_iff latin checker api (a_shoot shoot)

validate_rsyslog_relp_secret-eq-ok_example :
    (validate_rsyslog_relp_secret api secret ≡ ok tt) ↔ IsRelpSecret secret
validate_rsyslog_relp_secret-eq-ok_example =
    validate_rsyslog_relp_secret-eq-ok_iff api secret secret_distinct

validate_audit_config_map-eq-ok_example :
    (validate_audit_config_map api config_map ≡ ok tt) ↔ IsAuditConfigMap api config_map
validate_audit_config_map-eq-ok_example =
    validate_audit_config_map-eq-ok_iff api config_map config_map_distinct

get_referenced_resource_name_example :
    (get_referenced_resource_name (some shoot) "Secret" "relp-tls" ≡ ok "tls-v1")
    ↔ Refers shoot "Secret" "relp-tls" "tls-v1"
get_referenced_resource_name_example =
    get_referenced_resource_name_iff shoot "Secret" "relp-tls" "tls-v1"
