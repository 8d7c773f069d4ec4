-- ===== src/Tests/Rsyslog.antt =====
-- The files that configure rsyslog.
use gardener_extension_shoot.Common.{[], ◌∷◌, some, none, inr, ◌≡◌, refl, codes, map}
use gardener_extension_shoot.Common.Outcome.{ok, ◌>>=◌, err}
use gardener_extension_shoot.Gardener.{message}
use gardener_extension_shoot.Admission.Shoot.{a_shoot, validate}
use gardener_extension_shoot.Admission.Shoot.Admitted.{first_resource, first_extension}
use gardener_extension_shoot.Osc.Files.{Cluster, Library}
use gardener_extension_shoot.Osc.Rsyslog.{get_rsyslog_values, get_rsyslog_files}
use gardener_extension_shoot.Osc.Rsyslog.Deployed.{IsLibrary, Deploys, validated-Deploys}
use gardener_extension_shoot.Tests.Data.{latin, checker, config, shoot, api, maps, validation}

abbrev pub library : Library
library = record {
  execute = λ values. inr (codes values.target);
  encode_base64 = λ text. text;
  get_resource_by_name = λ refs name. first_resource name refs;
  referenced_resources_prefix = "ref-";
  command_start = "start";
  configure_rsyslog_script = codes "configure";
  process_rsyslog_pstats_script = codes "process";
}

pub is_library : IsLibrary library
is_library = record { first = λ refs name. refl; executes = λ values. (codes values.target, refl) }

abbrev pub cluster : Cluster
cluster = record {
  name = "shoot--foo--bar";
  shoot_name = "bar";
  shoot_uid = "1";
  resources = shoot.resources;
}

pub shoot_admitted : validate latin checker api (a_shoot shoot) ≡ ok tt
unfolding validate validation
shoot_admitted = refl

-- the paths, with TLS
file_paths :
    (get_rsyslog_files latin library config cluster >>= λ files. ok (map (λ f. f.path) files))
    ≡ ok (
        "/var/lib/rsyslog-relp-configurator/tls/ca.crt"
        ∷ "/var/lib/rsyslog-relp-configurator/tls/tls.crt"
        ∷ "/var/lib/rsyslog-relp-configurator/tls/tls.key"
        ∷ "/var/lib/rsyslog-relp-configurator/rsyslog.d/60-audit.conf"
        ∷ "/var/lib/rsyslog-relp-configurator/configure-rsyslog.sh"
        ∷ "/var/lib/rsyslog-relp-configurator/process-rsyslog-pstats.sh"
        ∷ "/etc/systemd/system/rsyslog.service.d/10-shoot-rsyslog-relp-memory-limits.conf" ∷ [])
unfolding get_rsyslog_files first_resource
file_paths = refl

missing_reference :
    get_rsyslog_files latin library config (record cluster { resources = [] })
    ≡ err (message "failed to find referenced resource with name relp-tls and kind Secret")
unfolding get_rsyslog_files first_resource
missing_reference = refl

first :
    first_extension shoot.extensions
    ≡ some
        (record { type_name = "shoot-rsyslog-relp"; provider_config = some "{}"; disabled = none })
unfolding first_extension
first = refl

validated-Deploys_example :
    Deploys library api shoot latin
      (get_rsyslog_values latin config cluster)
      config.tls
      (get_rsyslog_files latin library config cluster)
validated-Deploys_example =
    validated-Deploys library api shoot is_library latin checker maps
      (record { type_name = "shoot-rsyslog-relp"; provider_config = some "{}"; disabled = none })
      "{}" config cluster shoot_admitted first (λ e. cc) refl refl refl
