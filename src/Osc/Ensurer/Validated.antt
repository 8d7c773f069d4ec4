-- ===== src/Osc/Ensurer/Validated.antt =====
-- EnsureAdditionalFiles for a Shoot that the admission has let through.
use gardener_extension_shoot.Common.{String, List, none, some, true, ◌≡◌, ◌≢◌, inr, Text}
use gardener_extension_shoot.Common.Outcome.{Outcome, ok}
use gardener_extension_shoot.Api.{RsyslogRelpConfig}
use gardener_extension_shoot.Gardener.{Error, ShootExtension, Shoot}
use gardener_extension_shoot.Go.Strconv.{Unicode}
use gardener_extension_shoot.Validation.Patterns.{Checker}
use gardener_extension_shoot.Admission.Contents.{Api}
use gardener_extension_shoot.Admission.Shoot.Admitted.{first_extension}
use gardener_extension_shoot.Osc.Files.{File, Library}
use gardener_extension_shoot.Osc.Rsyslog.{rsyslog_config_from_osc_path, encoded_file}
use gardener_extension_shoot.Osc.Rsyslog.Deployed.{IsLibrary}
use gardener_extension_shoot.Osc.Audit.{AuditLibrary}
use gardener_extension_shoot.Osc.Ensurer.{Seed, SeedShoot, SeedCluster, Extension}
use gardener_extension_shoot.Osc.Ensurer.Files.{file_at, last_at, PutsFiles}

-- The files end up with the rendered configuration at its path.
abbrev pub HoldsConfig : Library → Text → Outcome Error (Unit {0}) × List File → Type 0
HoldsConfig library text after =
    (after.0 ≡ ok tt)
    × (file_at rsyslog_config_from_osc_path after.1
        ≡ some (encoded_file library rsyslog_config_from_osc_path text))

-- what the admission and the webhook are both about
pub record SameShoot (api : Api) (seed : Seed) (shoot : Shoot) (cluster : SeedCluster)
    : Type 0 where
  pub ext : ShootExtension
  pub first : first_extension shoot.extensions ≡ some ext
  pub enabled : ext.disabled ≢ some true
  pub raw : String
  pub provided : ext.provider_config ≡ some raw
  pub config : RsyslogRelpConfig
  pub decoded : api.decode_config raw ≡ inr config
  pub seed_shoot : SeedShoot
  pub populated : cluster.shoot ≡ some seed_shoot
  pub alive : seed_shoot.deletion_timestamp ≡ none
  pub same_resources : seed_shoot.resources ≡ shoot.resources
  pub extension : Extension
  pub stored :
      seed.get_extension (record { namespace = cluster.name; name = "shoot-rsyslog-relp" })
      ≡ inr extension
  pub same_config : extension.provider_config ≡ some raw
  pub same_decoder : seed.decode_config raw ≡ inr config

module _ (unicode : Unicode) (checker : Checker) (api : Api) (library : Library)
    (audit : AuditLibrary) (seed : Seed) (shoot : Shoot) (is_library : IsLibrary library)
    (puts : PutsFiles seed) where
  -- Files that are returned, and that do not replace the configuration.
  abbrev Returns : Outcome Error (List File) → Type 0
  Returns outcome =
      (files : List File) × (outcome ≡ ok files)
      × (last_at rsyslog_config_from_osc_path files ≡ none)
