-- ===== src/Osc/Rsyslog.antt =====
-- rsyslog.go: the files and the unit that configure rsyslog on a node.
pub mod Deployed
use gardener_extension_shoot.Common.{
  Text, ◌⊎◌, inl, inr, String, ℕ, List, [], ◌∷◌, ◌++◌, map, Option, none, some, Bool, true, false,
  not, str_eq, concat, codes, if◌then◌else◌,
}
use gardener_extension_shoot.Common.Outcome.{Outcome, ok, err, panic, ◌>>=◌, deref}
use gardener_extension_shoot.Api.{
  RsyslogRelpConfig, Tls, certificate_authority_key, client_certificate_key, private_key_key,
}
use gardener_extension_shoot.Gardener.{Error, message, NamedResource}
use gardener_extension_shoot.Go.Strconv.{Unicode, quote}
use gardener_extension_shoot.Go.Strings.{join}
use gardener_extension_shoot.Utils.{project_name}
use gardener_extension_shoot.Osc.Filters.{compute_log_filters}
use gardener_extension_shoot.Osc.Files.{
  FileContent, inline, secret_ref, File, SystemdUnit, Cluster, TlsValues, Values, Library,
}

abbrev pub rsyslog_osc_dir : String
rsyslog_osc_dir = "/var/lib/rsyslog-relp-configurator"

abbrev pub configure_rsyslog_script_path : String
configure_rsyslog_script_path = concat (rsyslog_osc_dir ∷ "/configure-rsyslog.sh" ∷ [])

abbrev pub process_rsyslog_pstats_script_path : String
process_rsyslog_pstats_script_path = concat (rsyslog_osc_dir ∷ "/process-rsyslog-pstats.sh" ∷ [])

abbrev pub rsyslog_config_from_osc_path : String
rsyslog_config_from_osc_path = concat (rsyslog_osc_dir ∷ "/rsyslog.d/60-audit.conf" ∷ [])

abbrev pub rsyslog_tls_from_osc_dir : String
rsyslog_tls_from_osc_dir = concat (rsyslog_osc_dir ∷ "/tls" ∷ [])

abbrev pub rsyslog_tls_dir : String
rsyslog_tls_dir = "/etc/ssl/rsyslog"

abbrev pub rsyslog_relp_queue_spool_dir : String
rsyslog_relp_queue_spool_dir = "/var/log/rsyslog"

abbrev pub rsyslog_service_memory_limits_drop_in_path : String
rsyslog_service_memory_limits_drop_in_path =
    "/etc/systemd/system/rsyslog.service.d/10-shoot-rsyslog-relp-memory-limits.conf"

-- `on` and `off`, if the pointer is set
unfoldable pub on_off : Option Bool → Option String
on_off none = none
on_off (some b) = some (if b then "on" else "off")

abbrev pub or_empty : Option String → String
or_empty none = ""
or_empty (some s) = s

unfoldable pub get_rsyslog_configurator_unit : Library → SystemdUnit
get_rsyslog_configurator_unit library = record {
  name = "rsyslog-configurator.service";
  command = some library.command_start;
  enable = some true;
  content = some (
      concat (
        "[Unit]\nDescription=rsyslog configurator daemon\nDocumentation=https://github.com/gardener/gardener-extension-shoot-rsyslog-relp\n[Service]\nType=simple\nRestart=always\nRestartSec=15\nExecStart="
        ∷ configure_rsyslog_script_path ∷ "\n[Install]\nWantedBy=multi-user.target" ∷ []));
}

abbrev pub secret_file : String → String → String → File
secret_file file_name secret_name data_key = record {
  path = concat (rsyslog_tls_from_osc_dir ∷ file_name ∷ []);
  permissions = some 384;
  content = secret_ref secret_name data_key;
}

abbrev pub tls_files : String → List File
tls_files secret_name =
    secret_file "/ca.crt" secret_name certificate_authority_key
    ∷ secret_file "/tls.crt" secret_name client_certificate_key
    ∷ secret_file "/tls.key" secret_name private_key_key
    ∷ []

abbrev not_found : String → Outcome Error (List File)
not_found reference = err (
    message (
      concat
        ("failed to find referenced resource with name " ∷ reference ∷ " and kind Secret" ∷ [])))

module _ (library : Library) where
  -- what is done with the result of GetResourceByName
  unfoldable pub files_of_resource : String → Option NamedResource → Outcome Error (List File)
  files_of_resource reference none = not_found reference
  files_of_resource reference (some ref) =
      if not (str_eq ref.resource_ref.kind "Secret")
      then not_found reference
      else ok
          (tls_files (concat (library.referenced_resources_prefix ∷ ref.resource_ref.name ∷ [])))

  unfoldable pub get_rsyslog_tls_files : Cluster → String → Outcome Error (List File)
  unfolding files_of_resource
  get_rsyslog_tls_files cluster reference =
      files_of_resource reference (library.get_resource_by_name cluster.resources reference)

  abbrev pub encoded_file : String → Text → File
  encoded_file path content = record {
    path = path;
    permissions = some 484;
    content = inline "b64" (library.encode_base64 content);
  }

  abbrev pub rsyslog_files : Text → List File
  rsyslog_files config =
      encoded_file rsyslog_config_from_osc_path config
      ∷ encoded_file configure_rsyslog_script_path library.configure_rsyslog_script
      ∷ encoded_file process_rsyslog_pstats_script_path library.process_rsyslog_pstats_script
      ∷ record {
        path = rsyslog_service_memory_limits_drop_in_path;
        permissions = some 420;
        content =
            inline ""
              (codes "[Service]\nMemoryMin=15M\nMemoryHigh=150M\nMemoryMax=300M\nMemorySwapMax=0");
      }
      ∷ []

  -- the template, and the files behind those of the TLS configuration
  unfoldable pub add_rsyslog_files : List File → Error ⊎ Text → Outcome Error (List File)
  add_rsyslog_files files (inl e) = err e
  add_rsyslog_files files (inr config) = ok (files ++ rsyslog_files config)

module _ (unicode : Unicode) where
  unfoldable pub get_rsyslog_values : RsyslogRelpConfig → Cluster → Values
  unfolding on_off compute_log_filters project_name
  get_rsyslog_values config cluster = record {
    target = config.target;
    port = config.port;
    rsyslog_relp_queue_spool_dir = rsyslog_relp_queue_spool_dir;
    project_name = project_name (codes cluster.name) (codes cluster.shoot_name);
    shoot_name = cluster.shoot_name;
    shoot_uid = cluster.shoot_uid;
    filters = compute_log_filters unicode config.logging_rules;
    rebind_interval = config.rebind_interval;
    timeout = config.timeout;
    resume_retry_count = config.resume_retry_count;
    report_suspension_continuation = on_off config.report_suspension_continuation;
    tls = none;
  }

  -- for a TLS configuration that is not nil
  unfoldable pub get_rsyslog_tls_values : Tls → TlsValues
  unfolding join
  get_rsyslog_tls_values tls = record {
    ca_path = concat (rsyslog_tls_dir ∷ "/ca.crt" ∷ []);
    cert_path = concat (rsyslog_tls_dir ∷ "/tls.crt" ∷ []);
    key_path = concat (rsyslog_tls_dir ∷ "/tls.key" ∷ []);
    enabled = tls.enabled;
    permitted_peer = join (map (quote unicode) tls.permitted_peer) (codes ",");
    auth_mode = or_empty tls.auth_mode;
    tls_lib = or_empty tls.tls_lib;
  }

module _ (unicode : Unicode) (library : Library) where
  -- the files, by the TLS configuration
  unfoldable pub files_with_tls : Values → Cluster → Option Tls → Outcome Error (List File)
  unfolding get_rsyslog_tls_values get_rsyslog_tls_files add_rsyslog_files
  files_with_tls values cluster none = add_rsyslog_files library [] (library.execute values)
  files_with_tls values cluster (some tls) =
      let with_tls : Values = record values { tls = some (get_rsyslog_tls_values unicode tls) } in
      if tls.enabled
      then (do
        reference ← deref tls.secret_reference_name
        files ← get_rsyslog_tls_files library cluster reference
        add_rsyslog_files library files (library.execute with_tls))
      else add_rsyslog_files library [] (library.execute values)

  unfoldable pub get_rsyslog_files : RsyslogRelpConfig → Cluster → Outcome Error (List File)
  unfolding get_rsyslog_values files_with_tls
  get_rsyslog_files config cluster =
      files_with_tls (get_rsyslog_values unicode config cluster) cluster config.tls
