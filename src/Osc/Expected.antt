-- ===== src/Osc/Expected.antt =====
-- webhooktest/webhooktest.go: the files and the unit that the repository's tests expect of the webhook.
pub mod Laws
use gardener_extension_shoot.Common.{
  String, List, [], ◌∷◌, some, Bool, true, Text, codes, if◌then◌else◌,
}
use gardener_extension_shoot.Osc.Files.{inline, secret_ref, File, SystemdUnit}

-- The testdata that are embedded, and what the code takes from other packages.
pub record TestData : Type 0 where
  pub encode_base64 : Text → Text
  pub command_start : String
  pub configure_rsyslog_script : Text
  pub process_rsyslog_pstats_script : Text
  pub base_config_rules : Text
  pub privilege_escalation_rules : Text
  pub privilege_special_rules : Text
  pub system_integrity_rules : Text

abbrev pub get_based_on_condition {ℓ} : {A : Type ℓ} → Bool → A → A → A
get_based_on_condition condition when_true when_false = if condition then when_true else when_false

module _ (test_data : TestData) where
  abbrev pub expected_file : Bool → String → Text → File
  expected_file use_expected path content = record {
    path = path;
    permissions = some 484;
    content = inline "b64" (
        test_data.encode_base64 (get_based_on_condition use_expected content (codes "oldContent")));
  }

  unfoldable pub get_audit_rules_files : Bool → List File
  get_audit_rules_files use_expected =
      expected_file use_expected
        "/var/lib/rsyslog-relp-configurator/audit/rules.d/00-base-config.rules"
        test_data.base_config_rules
      ∷ expected_file use_expected
          "/var/lib/rsyslog-relp-configurator/audit/rules.d/10-privilege-escalation.rules"
          test_data.privilege_escalation_rules
      ∷ expected_file use_expected
          "/var/lib/rsyslog-relp-configurator/audit/rules.d/11-privileged-special.rules"
          test_data.privilege_special_rules
      ∷ expected_file use_expected
          "/var/lib/rsyslog-relp-configurator/audit/rules.d/12-system-integrity.rules"
          test_data.system_integrity_rules
      ∷ []

  unfoldable pub get_rsyslog_files : Text → Bool → List File
  get_rsyslog_files config use_expected =
      expected_file use_expected "/var/lib/rsyslog-relp-configurator/rsyslog.d/60-audit.conf" config
      ∷ expected_file use_expected "/var/lib/rsyslog-relp-configurator/configure-rsyslog.sh"
          test_data.configure_rsyslog_script
      ∷ expected_file use_expected "/var/lib/rsyslog-relp-configurator/process-rsyslog-pstats.sh"
          test_data.process_rsyslog_pstats_script
      ∷ record {
        path = "/etc/systemd/system/rsyslog.service.d/10-shoot-rsyslog-relp-memory-limits.conf";
        permissions = some 420;
        content = inline "" (
            get_based_on_condition use_expected
              (codes "[Service]\nMemoryMin=15M\nMemoryHigh=150M\nMemoryMax=300M\nMemorySwapMax=0")
              (codes "old"));
      }
      ∷ []

  unfoldable pub get_rsyslog_configurator_unit : Bool → SystemdUnit
  get_rsyslog_configurator_unit use_expected = record {
    name = "rsyslog-configurator.service";
    command = some test_data.command_start;
    enable = some true;
    content = some (
        get_based_on_condition use_expected
          "[Unit]\nDescription=rsyslog configurator daemon\nDocumentation=https://github.com/gardener/gardener-extension-shoot-rsyslog-relp\n[Service]\nType=simple\nRestart=always\nRestartSec=15\nExecStart=/var/lib/rsyslog-relp-configurator/configure-rsyslog.sh\n[Install]\nWantedBy=multi-user.target"
          "old");
  }

abbrev pub expected_secret_file : Bool → String → String → File
expected_secret_file use_expected path data_key = record {
  path = path;
  permissions = some 384;
  content =
      secret_ref (get_based_on_condition use_expected "ref-rsyslog-tls" "ref-rsyslog-tls-old")
        data_key;
}

unfoldable pub get_rsyslog_tls_files : Bool → List File
get_rsyslog_tls_files use_expected =
    expected_secret_file use_expected "/var/lib/rsyslog-relp-configurator/tls/ca.crt" "ca"
    ∷ expected_secret_file use_expected "/var/lib/rsyslog-relp-configurator/tls/tls.crt" "crt"
    ∷ expected_secret_file use_expected "/var/lib/rsyslog-relp-configurator/tls/tls.key" "key"
    ∷ []
