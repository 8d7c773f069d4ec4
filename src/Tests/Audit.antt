-- ===== src/Tests/Audit.antt =====
-- The audit rules of a node.
use gardener_extension_shoot.Common.{codes}
use gardener_extension_shoot.Admission.Shoot.Admitted.{key_in}
use gardener_extension_shoot.Osc.Audit.{AuditLibrary}
use gardener_extension_shoot.Tests.Data.{shoot, api}

abbrev pub audit : AuditLibrary
audit = record {
  get_object_by_reference = λ ref namespace. api.get_config_map (key_in shoot ref.name);
  decode_auditd = api.decode_auditd;
  base_config_rules = codes "base";
  privilege_escalation_rules = codes "escalation";
  privilege_special_rules = codes "special";
  system_integrity_rules = codes "integrity";
}
