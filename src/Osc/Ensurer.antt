-- ===== src/Osc/Ensurer.antt =====
-- ensurer.go: EnsureAdditionalFiles and EnsureAdditionalUnits. The list of files or units that a
-- pointer refers to is the state.
pub mod Files
pub mod Owned
pub mod Laws
pub mod Validated
use gardener_extension_shoot.Common.{
  String, List, [], ◌∷◌, Option, none, some, Bool, true, concat, if◌then◌else◌, ◌⊎◌, inl, inr,
}
use gardener_extension_shoot.Common.Int.{pos}
use gardener_extension_shoot.Common.Outcome.{Outcome, ok, err, panic}
use gardener_extension_shoot.Common.Effect.{Effect, ◌>>=◌, ◌>>◌, done, lift, modify}
use gardener_extension_shoot.Api.{RsyslogRelpConfig, AuditConfig}
use gardener_extension_shoot.Gardener.{
  Error, message, wrap_outcome, or_error, NamedResource, ObjectKey,
}
use gardener_extension_shoot.Go.Strconv.{Unicode}
use gardener_extension_shoot.Osc.Files.{File, SystemdUnit, Cluster, Library}
use gardener_extension_shoot.Osc.Rsyslog.{get_rsyslog_files, get_rsyslog_configurator_unit}
use gardener_extension_shoot.Osc.Audit.{AuditLibrary, get_audit_files}

-- v1beta1.Shoot; the time of the deletion as a text
pub record SeedShoot : Type 0 where
  pub name : String
  pub uid : String
  pub deletion_timestamp : Option String
  pub resources : List NamedResource

-- extensionscontroller.Cluster, whose Shoot may be nil
pub record SeedCluster : Type 0 where
  pub name : String
  pub shoot : Option SeedShoot

-- extensionsv1alpha1.Extension
pub record Extension : Type 0 where
  pub namespace : String
  pub provider_config : Option String

-- The client and decoder of the ensurer, and the helpers of extensionswebhook.
pub record Seed : Type 0 where
  pub get_extension : ObjectKey → Error ⊎ Extension
  pub show_key : ObjectKey → String
  pub decode_config : String → Error ⊎ RsyslogRelpConfig
  pub ensure_file_with_path : List File → File → List File
  pub ensure_unit_with_name : List SystemdUnit → SystemdUnit → List SystemdUnit

abbrev pub cluster_of : String → SeedShoot → Cluster
cluster_of name shoot = record {
  name = name;
  shoot_name = shoot.name;
  shoot_uid = shoot.uid;
  resources = shoot.resources;
}

-- `&rsyslog.RsyslogRelpConfig{}`
abbrev pub empty_config : RsyslogRelpConfig
empty_config = record {
  type_meta = record { kind = ""; api_version = "" };
  target = "";
  port = pos 0;
  tls = none;
  logging_rules = [];
  rebind_interval = none;
  timeout = none;
  resume_retry_count = none;
  report_suspension_continuation = none;
  audit_config = none;
}

-- the guard on a Shoot that is nil
abbrev pub populated : Option SeedShoot → Outcome Error SeedShoot
populated none = err (message "cluster.shoot is not yet populated")
populated (some shoot) = ok shoot

-- the early return for a Shoot with a deletion timestamp
abbrev pub unless_deleted :
    Option String → Effect Error (List File) (Unit {0}) → Effect Error (List File) (Unit {0})
unless_deleted none m = m
unless_deleted (some time) m = done

-- `AuditConfig == nil || AuditConfig.Enabled`
abbrev pub audit_enabled : Option AuditConfig → Bool
audit_enabled none = true
audit_enabled (some config) = config.enabled

module _ (seed : Seed) where
  -- the configuration of the extension, or an empty one
  unfoldable pub decode_provider_config : Option String → Outcome Error RsyslogRelpConfig
  decode_provider_config none = ok empty_config
  decode_provider_config (some raw) =
      wrap_outcome "failed to decode provider config: " (or_error (seed.decode_config raw))

  -- the loop that adds files
  unfoldable pub ensure_files : List File → List File → List File
  ensure_files [] files = files
  ensure_files (file ∷ more) files = ensure_files more (seed.ensure_file_with_path files file)

  unfoldable pub ensure_additional_units :
      Library → List SystemdUnit → Outcome Error (Unit {0}) × List SystemdUnit
  unfolding get_rsyslog_configurator_unit
  ensure_additional_units library units =
      (ok tt, seed.ensure_unit_with_name units (get_rsyslog_configurator_unit library))

module _ (unicode : Unicode) (library : Library) (audit : AuditLibrary) (seed : Seed) where
  -- the part behind the files of rsyslog
  unfoldable pub ensure_audit_files :
      String → RsyslogRelpConfig → Cluster → Effect Error (List File) (Unit {0})
  unfolding ensure_files
  ensure_audit_files namespace config cluster =
      if audit_enabled config.audit_config
      then (do
        files ← lift (
            wrap_outcome "failed to get audit files: "
              (get_audit_files library audit namespace config cluster))
        modify (ensure_files seed files))
      else done

  -- the part behind the guards on the Shoot
  unfoldable pub ensure_shoot_files : Cluster → Effect Error (List File) (Unit {0})
  unfolding decode_provider_config ensure_files ensure_audit_files
  ensure_shoot_files cluster = do
    let key : ObjectKey = record { namespace = cluster.name; name = "shoot-rsyslog-relp" }
    extension ← lift (
        wrap_outcome (concat ("failed to get extension '" ∷ seed.show_key key ∷ "': " ∷ []))
          (or_error (seed.get_extension key)))
    config ← lift (decode_provider_config seed extension.provider_config)
    files ← lift (
        wrap_outcome "failed to get rsyslog files: "
          (get_rsyslog_files unicode library config cluster))
    modify (ensure_files seed files)
    ensure_audit_files extension.namespace config cluster

  -- the result of the Garden context's GetCluster is an argument
  unfoldable pub ensure_additional_files : Error ⊎ SeedCluster → Effect Error (List File) (Unit {0})
  unfolding ensure_shoot_files
  ensure_additional_files get_cluster = do
    cluster ← lift (or_error get_cluster)
    shoot ← lift (populated cluster.shoot)
    unless_deleted shoot.deletion_timestamp (ensure_shoot_files (cluster_of cluster.name shoot))
