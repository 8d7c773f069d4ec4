-- ===== src/Tests/Expected.antt =====
-- The files that the repository's tests expect.
use gardener_extension_shoot.Common.{true, codes, [], ◌∷◌, ◌++◌, ◌≡◌, refl}
use gardener_extension_shoot.Common.Outcome.{ok}
use gardener_extension_shoot.Admission.Shoot.Admitted.{first_resource}
use gardener_extension_shoot.Gardener.{NamedResource}
use gardener_extension_shoot.Osc.Files.{Cluster}
use gardener_extension_shoot.Osc.Rsyslog
use gardener_extension_shoot.Osc.Expected.{get_rsyslog_files, get_rsyslog_tls_files}
use gardener_extension_shoot.Osc.Expected.Laws.{test_data_of, get_rsyslog_files-expected}
use gardener_extension_shoot.Tests.Data.{latin, config, tls}
use gardener_extension_shoot.Tests.Rsyslog.{library, cluster}
use gardener_extension_shoot.Tests.Audit.{audit}

abbrev tls_reference : NamedResource
tls_reference = record {
  name = "relp-tls";
  resource_ref = record { kind = "Secret"; name = "rsyslog-tls" };
}

abbrev tls_cluster : Cluster
tls_cluster = record cluster { resources = tls_reference ∷ [] }

get_rsyslog_files-expected_example :
    Rsyslog.get_rsyslog_files latin library config tls_cluster
    ≡ ok (
        get_rsyslog_tls_files true
        ++ get_rsyslog_files (test_data_of library audit) (codes config.target) true)
unfolding first_resource Rsyslog.get_rsyslog_values
get_rsyslog_files-expected_example =
    get_rsyslog_files-expected latin library audit config tls_cluster tls "relp-tls" tls_reference
      (codes config.target) refl refl refl refl refl refl refl
