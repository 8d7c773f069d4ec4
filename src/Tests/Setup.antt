-- ===== src/Tests/Setup.antt =====
-- Shoots that tests set up.
use gardener_extension_shoot.Common.{String, [], ◌∷◌, none, some, false, ◌≡◌, ◌≢◌, refl}
use gardener_extension_shoot.Common.Int.{pos}
use gardener_extension_shoot.V1alpha1.{RsyslogRelpConfig}
use gardener_extension_shoot.Admission.Shoot.Admitted.{first_extension, first_resource, Refers}
use gardener_extension_shoot.Setup.{
  contains, extension_name, default_provider_config, apply_options,
  add_or_update_rsyslog_relp_extension, has_rsyslog_relp_extension, remove_rsyslog_relp_extension,
  add_or_update_resource_reference, remove_resource_reference, has_resource_reference, with_port,
  with_target,
}
use gardener_extension_shoot.Setup.Laws.{
  add_or_update_rsyslog_relp_extension-remove, add_or_update_resource_reference-Refers,
}
use gardener_extension_shoot.Tests.Data.{shoot}

abbrev marshal : RsyslogRelpConfig → String
marshal config = config.target

targets :
    (with_target "relp.example" (with_port (pos 1) (default_provider_config "v1"))).target
    ≡ "relp.example"
unfolding with_target
targets = refl

add_or_update_rsyslog_relp_extension-remove_example :
    let added =
      add_or_update_rsyslog_relp_extension marshal "v1alpha1"
        (with_target "relp.example" ∷ [])
        shoot in
    (first_extension added.extensions
      ≡ some (record {
        type_name = "shoot-rsyslog-relp";
        provider_config = some (
            marshal (
              apply_options
                (with_target "relp.example" ∷ [])
                (default_provider_config "v1alpha1")));
        disabled = none;
      }))
    × (has_rsyslog_relp_extension shoot ≡ false → remove_rsyslog_relp_extension added ≡ shoot)
    × (remove_rsyslog_relp_extension added ≡ remove_rsyslog_relp_extension shoot)
    × ((other : String)
        → other ≢ "shoot-rsyslog-relp"
        → contains extension_name other (remove_rsyslog_relp_extension added).extensions
          ≡ contains extension_name other shoot.extensions)
    × (has_rsyslog_relp_extension (remove_rsyslog_relp_extension added) ≡ false)
add_or_update_rsyslog_relp_extension-remove_example =
    add_or_update_rsyslog_relp_extension-remove marshal "v1alpha1" (with_target "relp.example" ∷ [])
      shoot

add_or_update_resource_reference-Refers_example :
    let added = add_or_update_resource_reference shoot "relp-tls" "Secret" "tls-v2" in
    Refers added "Secret" "relp-tls" "tls-v2"
    × ((other : String)
        → other ≢ "relp-tls"
        → first_resource other added.resources ≡ first_resource other shoot.resources)
    × (has_resource_reference (remove_resource_reference added "relp-tls") "relp-tls" ≡ false)
    × (has_resource_reference shoot "relp-tls" ≡ false
        → remove_resource_reference added "relp-tls" ≡ shoot)
add_or_update_resource_reference-Refers_example =
    add_or_update_resource_reference-Refers shoot "relp-tls" "Secret" "tls-v2"
