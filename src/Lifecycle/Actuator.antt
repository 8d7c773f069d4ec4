-- ===== src/Lifecycle/Actuator.antt =====
-- actuator.go: Reconcile, Delete and the operations that do nothing.
pub mod Clean
pub mod Frame
pub mod Laws
use gardener_extension_shoot.Common.{
  String, List, Option, none, some, Bool, if◌then◌else◌, ◌⊎◌, inl, inr,
}
use gardener_extension_shoot.Common.Outcome.{Outcome, ok, err, panic}
use gardener_extension_shoot.Common.Effect.{Effect, proceed, ◌>>=◌, ◌>>◌, done, lift}
use gardener_extension_shoot.Api.{RsyslogRelpConfig}
use gardener_extension_shoot.Gardener.{Error, message, wrap_outcome, or_error}
use gardener_extension_shoot.Lifecycle.Kube.{Client}
use gardener_extension_shoot.Lifecycle.Monitoring.{
  deploy_monitoring_config, delete_monitoring_config,
}
use gardener_extension_shoot.Lifecycle.Cleaner.{
  Values, ManagedResources, deploy, destroy, wait, wait_cleanup,
}

-- The Shoot of a Cluster, and what extensionscontroller.IsHibernated says of the Cluster.
pub record ClusterShoot : Type 0 where
  pub deletion_timestamp : Option String
  pub hibernated : Bool

-- extensionsv1alpha1.Extension
pub record Extension : Type 0 where
  pub namespace : String
  pub provider_config : Option String

-- What the actuator calls: the clients, the decoder, the image vector, GetCluster, whose Shoot may
-- be nil, and component.OpWait and OpDestroyAndWait, which run an operation and the wait for it.
pub record Seed (S : Type 0) : Type 0 where
  pub client : Client S
  pub managed : ManagedResources S
  pub dashboard_config : String
  pub decode_config : String → Error ⊎ RsyslogRelpConfig
  pub find_image : String → Error ⊎ String
  pub get_cluster : String → S → Error ⊎ Option ClusterShoot
  pub op_wait : Effect Error S (Unit {0}) → Effect Error S (Unit {0}) → Effect Error S (Unit {0})

-- `if err := m; err != nil { return fmt.Errorf(text, err) }`
abbrev pub wrap_errors :
    {S : Type 0} → String → Effect Error S (Unit {0}) → Effect Error S (Unit {0})
wrap_errors text m s = (wrap_outcome text (m s).0, (m s).1)

module _ {S : Type 0} (seed : Seed S) where
  -- the panic is that of `ex.Spec.ProviderConfig.Raw` for a configuration that is nil
  abbrev pub raw_config : Option String → Outcome Error String
  raw_config none = panic
  raw_config (some raw) = ok raw

  abbrev pub decode_provider_config : String → Outcome Error RsyslogRelpConfig
  decode_provider_config raw =
      wrap_outcome "failed to decode provider config: " (or_error (seed.decode_config raw))

  unfoldable pub reconcile : Extension → Effect Error S (Unit {0})
  unfolding deploy_monitoring_config
  reconcile ex = do
    raw ← lift (raw_config ex.provider_config)
    config ←
        lift (wrap_outcome "failed to decode provider config: " (or_error (seed.decode_config raw)))
    deploy_monitoring_config seed.client seed.dashboard_config ex.namespace config.audit_config

  -- the cleaner is deployed unless the Shoot is in deletion
  unfoldable pub deploy_cleaner : String → Values → Option String → Effect Error S (Unit {0})
  unfolding deploy wait
  deploy_cleaner namespace values none =
      wrap_errors "failed to deploy the rsyslog relp configuration cleaner component: "
        (seed.op_wait (deploy seed.managed namespace values) (wait seed.managed namespace values))
  deploy_cleaner namespace values (some time) = done

  unfoldable pub destroy_cleaner : String → Values → Effect Error S (Unit {0})
  unfolding destroy wait_cleanup
  destroy_cleaner namespace values =
      wrap_errors "failed to destroy the rsyslog relp configuration cleaner component: " (
        seed.op_wait (destroy seed.managed namespace values)
          (wait_cleanup seed.managed namespace values))

  -- the two images
  abbrev pub find_alpine_image : Outcome Error String
  find_alpine_image =
      wrap_outcome "failed to find the alpine image: " (or_error (seed.find_image "alpine"))

  abbrev pub find_pause_image : Outcome Error String
  find_pause_image =
      wrap_outcome "failed to find the pause image: " (or_error (seed.find_image "pause-container"))

  -- what is done with the images
  unfoldable pub run_cleaner : ClusterShoot → String → String → String → Effect Error S (Unit {0})
  unfolding deploy_cleaner destroy_cleaner
  run_cleaner shoot namespace alpine_image pause_image =
      let values : Values = record {
        alpine_image = alpine_image;
        pause_container_image = pause_image;
      } in
      deploy_cleaner namespace values shoot.deletion_timestamp >> destroy_cleaner namespace values

  unfoldable pub clean_rsyslog_relp_configuration :
      ClusterShoot → String → Effect Error S (Unit {0})
  unfolding run_cleaner
  clean_rsyslog_relp_configuration shoot namespace = if shoot.hibernated then done else (do
    alpine_image ← lift find_alpine_image
    pause_image ← lift find_pause_image
    run_cleaner shoot namespace alpine_image pause_image)

  -- the guard on a Shoot that is nil
  abbrev pub populated : Option ClusterShoot → Outcome Error ClusterShoot
  populated none = err (message "cluster.shoot is not yet populated")
  populated (some shoot) = ok shoot

  abbrev pub get_cluster : String → Effect Error S (Option ClusterShoot)
  get_cluster namespace s = (or_error (seed.get_cluster namespace s), s)

  -- the part of Delete behind the guards
  unfoldable pub clean_up : String → ClusterShoot → Effect Error S (Unit {0})
  unfolding delete_monitoring_config clean_rsyslog_relp_configuration
  clean_up namespace shoot =
      wrap_errors "failed cleaning up monitoring configuration: "
        (delete_monitoring_config seed.client seed.dashboard_config namespace)
      >> clean_rsyslog_relp_configuration shoot namespace

  unfoldable pub delete : Extension → Effect Error S (Unit {0})
  unfolding clean_up
  delete ex = do
    cluster ← get_cluster ex.namespace
    shoot ← lift (populated cluster)
    wrap_errors "failed cleaning up monitoring configuration: "
        (delete_monitoring_config seed.client seed.dashboard_config ex.namespace)
    clean_rsyslog_relp_configuration shoot ex.namespace

  unfoldable pub force_delete : Extension → Effect Error S (Unit {0})
  force_delete ex = done

  unfoldable pub restore : Extension → Effect Error S (Unit {0})
  unfolding reconcile
  restore ex = reconcile ex

  unfoldable pub migrate : Extension → Effect Error S (Unit {0})
  migrate ex = done
