-- ===== src/Osc/Expected/Laws.antt =====
-- The files that the tests expect are those which the webhook computes.
use gardener_extension_shoot.Common.{
  String, ◌++◌, some, Text, true, inr, ◌≡◌, refl, concat, [], ◌∷◌,
}
use gardener_extension_shoot.Common.Outcome.{ok}
use gardener_extension_shoot.Api.{RsyslogRelpConfig, Tls}
use gardener_extension_shoot.Gardener.{NamedResource}
use gardener_extension_shoot.Go.Strconv.{Unicode}
use gardener_extension_shoot.Osc.Files.{Cluster, Library}
use gardener_extension_shoot.Osc.Rsyslog.{get_rsyslog_values, get_rsyslog_tls_values}
use gardener_extension_shoot.Osc.Rsyslog
use gardener_extension_shoot.Osc.Audit.{AuditLibrary, get_default_audit_rules}
use gardener_extension_shoot.Osc.Expected.{
  TestData, get_audit_rules_files, get_rsyslog_files, get_rsyslog_configurator_unit,
  get_rsyslog_tls_files,
}

-- The tests embed the scripts and rules that the webhook embeds.
abbrev pub test_data_of : Library → AuditLibrary → TestData
test_data_of library audit = record {
  encode_base64 = library.encode_base64;
  command_start = library.command_start;
  configure_rsyslog_script = library.configure_rsyslog_script;
  process_rsyslog_pstats_script = library.process_rsyslog_pstats_script;
  base_config_rules = audit.base_config_rules;
  privilege_escalation_rules = audit.privilege_escalation_rules;
  privilege_special_rules = audit.privilege_special_rules;
  system_integrity_rules = audit.system_integrity_rules;
}

module _ (unicode : Unicode) (library : Library) (audit : AuditLibrary) where
  -- With TLS enabled and a reference to a Secret of the Shoot whose name in the seed is
  -- ref-rsyslog-tls, the webhook computes the files that the tests expect: those of TLS, then those of
  -- rsyslog around the text that the executed template gives. The tests are to embed the webhook's
  -- scripts.
  pub get_rsyslog_files-expected :
      (config : RsyslogRelpConfig) (cluster : Cluster) (tls : Tls) (reference : String)
      (ref : NamedResource) (rendered : Text)
      → config.tls ≡ some tls
      → tls.enabled ≡ true
      → tls.secret_reference_name ≡ some reference
      → library.get_resource_by_name cluster.resources reference ≡ some ref
      → ref.resource_ref.kind ≡ "Secret"
      → concat (library.referenced_resources_prefix ∷ ref.resource_ref.name ∷ [])
        ≡ "ref-rsyslog-tls"
      → library.execute (record (get_rsyslog_values unicode config cluster) {
        tls = some (get_rsyslog_tls_values unicode tls);
      })
        ≡ inr rendered
      → Rsyslog.get_rsyslog_files unicode library config cluster
        ≡ ok (
            get_rsyslog_tls_files true
            ++ get_rsyslog_files (test_data_of library audit) rendered true)
  unfolding Rsyslog.get_rsyslog_files get_rsyslog_files get_rsyslog_tls_files
  get_rsyslog_files-expected config cluster tls reference ref rendered has_tls enabled named found
        kind prefixed executed =
      rw (has_tls, executed, enabled, named, found, kind, prefixed) refl

  -- The default audit rules and the configurator unit are those that the tests expect.
  default_rules-expected :
      get_default_audit_rules library audit
      ≡ get_audit_rules_files (test_data_of library audit) true
  unfolding get_default_audit_rules get_audit_rules_files
  default_rules-expected = refl

  unit-expected :
      Rsyslog.get_rsyslog_configurator_unit library
      ≡ get_rsyslog_configurator_unit (test_data_of library audit) true
  unfolding Rsyslog.get_rsyslog_configurator_unit get_rsyslog_configurator_unit
  unit-expected = refl
