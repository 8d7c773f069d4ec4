-- ===== src/Osc/Audit/Deployed.antt =====
-- The audit rules that the webhook deploys for a configuration that the admission has let through.
use gardener_extension_shoot.Common.{
  String, List, [], ◌∷◌, some, arith, eq_iff, codes, ◌≡◌, inr, refl,
}
use gardener_extension_shoot.Common.Outcome.{ok}
use gardener_extension_shoot.Gardener.{NamedResource, ResourceRef, Shoot, ConfigMap}
use gardener_extension_shoot.Go.Strconv.{Unicode}
use gardener_extension_shoot.Validation.Patterns.{Checker}
use gardener_extension_shoot.Admission.Contents.{Api}
use gardener_extension_shoot.Admission.Shoot.Admitted.{first_resource, key_in, HasAuditMap}
use gardener_extension_shoot.Osc.Files.{Cluster, Library}
use gardener_extension_shoot.Osc.Audit.{
  AuditLibrary, config_map_ref, audit_rules_file, get_audit_config_from_config_map,
}

-- What the code relies on: the lookup finds the first resource with the name, the decoder is that of
-- the admission, and Gardener copies the ConfigMaps of the Shoot's resources to the seed.
pub record IsSeed (library : Library) (audit : AuditLibrary) (api : Api) (shoot : Shoot)
    (namespace : String) : Type 0 where
  pub first :
      (refs : List NamedResource) (name : String)
      → library.get_resource_by_name refs name ≡ first_resource name refs
  pub decodes : (contents : String) → audit.decode_auditd contents ≡ api.decode_auditd contents
  pub copies :
      (ref : ResourceRef) (config_map : ConfigMap)
      → ref.kind ≡ "ConfigMap"
      → api.get_config_map (key_in shoot ref.name) ≡ inr config_map
      → (copy : ConfigMap) × (audit.get_object_by_reference ref namespace ≡ inr copy)
        × (copy.entries ≡ config_map.entries)

config_map_ref-of_kind :
    (reference : String) (ref : NamedResource)
    → ref.resource_ref.kind ≡ "ConfigMap"
    → config_map_ref reference (some ref) ≡ ok ref.resource_ref
unfolding config_map_ref
config_map_ref-of_kind reference ref kind = ground (arith, eq_iff ref.resource_ref.kind "ConfigMap")

module _ (library : Library) (audit : AuditLibrary) (unicode : Unicode) (checker : Checker) where
  module _ (api : Api) (shoot : Shoot) (namespace : String) where
    module _ (seed : IsSeed library audit api shoot namespace) where
      pub from_config_map-eq :
          (cluster : Cluster) (reference : String)
          → cluster.resources ≡ shoot.resources
          → (h : HasAuditMap unicode checker api shoot reference)
          → get_audit_config_from_config_map library audit cluster namespace reference
            ≡ ok (audit_rules_file library audit (codes h.content.auditd.audit_rules) ∷ [])
      unfolding get_audit_config_from_config_map
      from_config_map-eq cluster reference same h =
          let (copy, read, entries) =
            seed.copies h.refers.resource.resource_ref h.config_map h.refers.right_kind
              (rw h.refers.target h.stored) in
          rw
            (
              same,
              seed.first shoot.resources reference,
              h.refers.found,
              config_map_ref-of_kind reference h.refers.resource h.refers.right_kind,
              read,
              entries,
              h.content.found,
              seed.decodes h.content.contents,
              h.content.decoded,
            )
            refl
