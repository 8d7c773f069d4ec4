-- ===== src/Osc/Audit.antt =====
-- auditd.go: the files with audit rules, from a ConfigMap or the default ones.
pub mod Deployed
use gardener_extension_shoot.Common.{
  String, List, [], ◌∷◌, Map, lookup, Option, none, some, Text, codes, not, str_eq, concat,
  if◌then◌else◌, ◌⊎◌, inl, inr,
}
use gardener_extension_shoot.Common.Outcome.{Outcome, ok, err, ◌>>=◌}
use gardener_extension_shoot.Api.{
  RsyslogRelpConfig, AuditConfig, Auditd, auditd_config_map_data_key,
}
use gardener_extension_shoot.Gardener.{Error, message, NamedResource, ResourceRef, ConfigMap}
use gardener_extension_shoot.Osc.Files.{FileContent, inline, File, Cluster, Library}
use gardener_extension_shoot.Osc.Rsyslog.{rsyslog_osc_dir, encoded_file}

-- The reader of the seed's objects, the decoder, and the rules that are embedded.
pub record AuditLibrary : Type 0 where
  pub get_object_by_reference : ResourceRef → String → Error ⊎ ConfigMap
  pub decode_auditd : String → Error ⊎ Auditd
  pub base_config_rules : Text
  pub privilege_escalation_rules : Text
  pub privilege_special_rules : Text
  pub system_integrity_rules : Text

abbrev pub audit_rules_from_osc_dir : String
audit_rules_from_osc_dir = concat (rsyslog_osc_dir ∷ "/audit/rules.d" ∷ [])

abbrev pub base_config_rules_path : String
base_config_rules_path = "/var/lib/rsyslog-relp-configurator/audit/rules.d/00-base-config.rules"

abbrev pub privilege_escalation_rules_path : String
privilege_escalation_rules_path =
    "/var/lib/rsyslog-relp-configurator/audit/rules.d/10-privilege-escalation.rules"

abbrev pub privilege_special_rules_path : String
privilege_special_rules_path =
    "/var/lib/rsyslog-relp-configurator/audit/rules.d/11-privileged-special.rules"

abbrev pub system_integrity_rules_path : String
system_integrity_rules_path =
    "/var/lib/rsyslog-relp-configurator/audit/rules.d/12-system-integrity.rules"

abbrev no_config_map : String → Outcome Error ResourceRef
no_config_map reference = err (
    message (
      concat
        ("failed to find referenced resource with name " ∷ reference ∷ " and kind ConfigMap" ∷ [])))

-- what the code goes on with, of the result of GetResourceByName
unfoldable pub config_map_ref : String → Option NamedResource → Outcome Error ResourceRef
config_map_ref reference none = no_config_map reference
config_map_ref reference (some ref) =
    if not (str_eq ref.resource_ref.kind "ConfigMap")
    then no_config_map reference
    else ok ref.resource_ref

module _ (library : Library) (audit : AuditLibrary) where
  abbrev pub read_config_map : String → ResourceRef → Error ⊎ ConfigMap → Outcome Error ConfigMap
  read_config_map reference ref (inl e) = err (
      message (
        concat (
          "failed to read referenced configMap " ∷ library.referenced_resources_prefix ∷ ref.name
          ∷ " for reference " ∷ reference ∷ [])))
  read_config_map reference ref (inr config_map) = ok config_map

  abbrev pub auditd_config_string : ResourceRef → Option String → Outcome Error String
  auditd_config_string ref none = err (
      message (
        concat (
          "missing 'data." ∷ auditd_config_map_data_key ∷ "' field in configMap "
          ∷ library.referenced_resources_prefix ∷ ref.name ∷ [])))
  auditd_config_string ref (some s) = ok s

  abbrev pub decoded : Error ⊎ Auditd → Outcome Error Auditd
  decoded (inl e) = err e
  decoded (inr auditd) = ok auditd

  abbrev pub audit_rules_file : Text → File
  audit_rules_file rules = record {
    path = concat (audit_rules_from_osc_dir ∷ "/" ∷ "00_shoot_rsyslog_relp.rules" ∷ []);
    permissions = some 420;
    content = inline "b64" (library.encode_base64 rules);
  }

  unfoldable pub get_audit_config_from_config_map :
      Cluster → String → String → Outcome Error (List File)
  unfolding config_map_ref lookup
  get_audit_config_from_config_map cluster namespace reference = do
    ref ← config_map_ref reference (library.get_resource_by_name cluster.resources reference)
    config_map ← read_config_map reference ref (audit.get_object_by_reference ref namespace)
    contents ← auditd_config_string ref (lookup auditd_config_map_data_key config_map.entries)
    auditd ← decoded (audit.decode_auditd contents)
    ok (audit_rules_file (codes auditd.audit_rules) ∷ [])

  unfoldable pub get_default_audit_rules : List File
  get_default_audit_rules =
      encoded_file library base_config_rules_path audit.base_config_rules
      ∷ encoded_file library privilege_escalation_rules_path audit.privilege_escalation_rules
      ∷ encoded_file library privilege_special_rules_path audit.privilege_special_rules
      ∷ encoded_file library system_integrity_rules_path audit.system_integrity_rules
      ∷ []

  -- the files, by `AuditConfig.ConfigMapReferenceName`
  unfoldable pub files_by_reference : String → Option String → Cluster → Outcome Error (List File)
  unfolding get_audit_config_from_config_map get_default_audit_rules
  files_by_reference namespace none cluster = ok get_default_audit_rules
  files_by_reference namespace (some reference) cluster =
      get_audit_config_from_config_map cluster namespace reference

  abbrev pub config_map_reference : Option AuditConfig → Option String
  config_map_reference none = none
  config_map_reference (some config) = config.config_map_reference_name

  unfoldable pub get_audit_files : String → RsyslogRelpConfig → Cluster → Outcome Error (List File)
  unfolding files_by_reference
  get_audit_files namespace config cluster =
      files_by_reference namespace (config_map_reference config.audit_config) cluster
