-- ===== src/Lifecycle/Actuator/Laws.antt =====
-- What a deletion leaves, and what a reconciliation of an admitted Shoot does.
use gardener_extension_shoot.Common.{
  String, Map, Option, none, some, true, false, ◌≡◌, ◌≢◌, inl, inr, refl, ◌∙◌,
}
use gardener_extension_shoot.Common.Outcome.{ok}
use gardener_extension_shoot.Common.Effect.{◌>>=◌, lift}
use gardener_extension_shoot.Common.Effect.Laws.{>>=-ok, >>-ok}
use gardener_extension_shoot.Api.{RsyslogRelpConfig}
use gardener_extension_shoot.Gardener.{wrap_outcome-eq-ok, ShootExtension, Shoot}
use gardener_extension_shoot.Go.Strconv.{Unicode}
use gardener_extension_shoot.Validation.Patterns.{Checker}
use gardener_extension_shoot.Validation.Accepted.{IsAccepted}
use gardener_extension_shoot.Admission.Contents.{Api}
use gardener_extension_shoot.Admission.Shoot.{a_shoot, validate}
use gardener_extension_shoot.Admission.Shoot.Admitted.{HasMaps, first_extension}
use gardener_extension_shoot.Admission.Shoot.Laws.{validate-eq-ok_iff}
use gardener_extension_shoot.Lifecycle.Kube.{ObjectRef, IsAmong}
use gardener_extension_shoot.Lifecycle.Monitoring.{
  deploy_monitoring_config, delete_monitoring_config, monitoring_objects,
}
use gardener_extension_shoot.Lifecycle.Monitoring.Laws.{IsDeployed, deploy-IsDeployed}
use gardener_extension_shoot.Lifecycle.Cleaner.{
  Values, managed_resource_name, destroy, wait_cleanup,
}
use gardener_extension_shoot.Lifecycle.Actuator.{
  ClusterShoot, Extension, Seed, wrap_errors, clean_up, run_cleaner, deploy_cleaner,
  destroy_cleaner, find_alpine_image, find_pause_image, reconcile, clean_rsyslog_relp_configuration,
  delete,
}
use gardener_extension_shoot.Lifecycle.Actuator.Clean.{IsSeed, clean-Keeps}

module _ {S : Type 0} (seed : Seed S) (resource : S → String → String → Option (Map String))
    (is_seed : IsSeed seed resource) where
  module _ (namespace : String) where
    destroy_cleaner-gone :
        (values : Values) (s : S)
        → (destroy_cleaner seed namespace values s).0 ≡ ok tt
        → resource (destroy_cleaner seed namespace values s).1 namespace managed_resource_name
          ≡ none
    unfolding destroy_cleaner destroy wait_cleanup
    destroy_cleaner-gone values s passed =
        let first = destroy seed.managed namespace values in
        let second = wait_cleanup seed.managed namespace values in
        let waited = is_seed.waits first second s in
        let returned : (seed.op_wait first second s).0 ≡ ok tt = wrap_outcome-eq-ok _ _ passed in
        let (destroyed, deleted, end) = >>-ok first second s (rw waited at returned) in
        rw (waited, end) (is_seed.gone namespace managed_resource_name (first s).1 deleted)

    run_cleaner-gone :
        (shoot : ClusterShoot) (alpine_image pause_image : String) (s : S)
        → (run_cleaner seed shoot namespace alpine_image pause_image s).0 ≡ ok tt
        → resource
            (run_cleaner seed shoot namespace alpine_image pause_image s).1
            namespace
            managed_resource_name
          ≡ none
    unfolding run_cleaner
    run_cleaner-gone shoot alpine_image pause_image s passed =
        let values : Values = record {
          alpine_image = alpine_image;
          pause_container_image = pause_image;
        } in
        let deploys = deploy_cleaner seed namespace values shoot.deletion_timestamp in
        let (deployed, destroyed, end) =
          >>-ok deploys (destroy_cleaner seed namespace values) s passed in
        rw end (destroy_cleaner-gone values (deploys s).1 destroyed)

    clean-gone :
        (shoot : ClusterShoot) (s : S)
        → shoot.hibernated ≡ false
        → (clean_rsyslog_relp_configuration seed shoot namespace s).0 ≡ ok tt
        → resource
            (clean_rsyslog_relp_configuration seed shoot namespace s).1
            namespace
            managed_resource_name
          ≡ none
    unfolding clean_rsyslog_relp_configuration
    clean-gone shoot s awake passed =
        let run = run_cleaner seed shoot namespace in
        let (alpine, found, rest, end) =
          >>=-ok (lift (find_alpine_image seed))
            (λ alpine. lift (find_pause_image seed) >>= run alpine) s (rw awake at passed) in
        let (pause, found', ran, end') =
          >>=-ok (lift (find_pause_image seed)) (run alpine) s rest in
        rw (awake, end, end') (run_cleaner-gone shoot alpine pause s ran)

    clean_up-removes :
        (shoot : ClusterShoot) (s : S)
        → (clean_up seed namespace shoot s).0 ≡ ok tt
        → ((ref : ObjectRef)
            → IsAmong ref (monitoring_objects seed.client seed.dashboard_config namespace)
            → seed.client.object (clean_up seed namespace shoot s).1 ref ≡ none)
          × (shoot.hibernated ≡ false
              → resource (clean_up seed namespace shoot s).1 namespace managed_resource_name ≡ none)
    unfolding clean_up delete_monitoring_config
    clean_up-removes shoot s passed =
        let first =
          wrap_errors "failed cleaning up monitoring configuration: "
            (delete_monitoring_config seed.client seed.dashboard_config namespace) in
        let second = clean_rsyslog_relp_configuration seed shoot namespace in
        let (removed, cleaned, end) = >>-ok first second s passed in
        rw end (
          λ ref among.
              (clean-Keeps seed resource is_seed namespace shoot (first s).1).0 ref
              ∙ is_seed.client.deleted
                  (monitoring_objects seed.client seed.dashboard_config namespace) s ref
                  (wrap_outcome-eq-ok _ _ removed) among,
          λ awake. clean-gone shoot (first s).1 awake cleaned,
        )

  -- If Delete returns no error, then none of the three objects of the monitoring is left, and the
  -- managed resource of the cleaner is gone if the Shoot is not hibernated, whether the Shoot is in
  -- deletion or not. The functions of Gardener that write objects must do what IsSeed says.
  pub delete-removes :
      (ex : Extension) (shoot : ClusterShoot) (s : S)
      → seed.get_cluster ex.namespace s ≡ inr (some shoot)
      → (delete seed ex s).0 ≡ ok tt
      → ((ref : ObjectRef)
          → IsAmong ref (monitoring_objects seed.client seed.dashboard_config ex.namespace)
          → seed.client.object (delete seed ex s).1 ref ≡ none)
        × (shoot.hibernated ≡ false
            → resource (delete seed ex s).1 ex.namespace managed_resource_name ≡ none)
  unfolding delete
  delete-removes ex shoot s known passed =
      rw known (clean_up-removes ex.namespace shoot s (rw known at passed))

  -- If Validate lets a Shoot through whose extension is not disabled, and the actuator reads its
  -- configuration, then this is there and is decoded, to a configuration that the validation accepts.
  -- Reconcile deploys the monitoring with the audit configuration of the decoded one, and does nothing
  -- else; a Reconcile that returns no error leaves the three objects with the alerts for it. The
  -- functions of Gardener that write objects must do what IsSeed says.
  pub validated-reconcile :
      (unicode : Unicode) (checker : Checker) (api : Api) (maps : HasMaps api) (shoot : Shoot)
      (ext : ShootExtension) (ex : Extension)
      → validate unicode checker api (a_shoot shoot) ≡ ok tt
      → first_extension shoot.extensions ≡ some ext
      → ext.disabled ≢ some true
      → ex.provider_config ≡ ext.provider_config
      → ((raw : String) → seed.decode_config raw ≡ api.decode_config raw)
      → (raw : String) × (config : RsyslogRelpConfig) × (ext.provider_config ≡ some raw)
        × (seed.decode_config raw ≡ inr config)
        × IsAccepted unicode checker config
        × ((s : S)
            → reconcile seed ex s
              ≡ deploy_monitoring_config seed.client seed.dashboard_config ex.namespace
                  config.audit_config s)
        × ((s : S)
            → (reconcile seed ex s).0 ≡ ok tt
            → IsDeployed seed.client seed.dashboard_config ex.namespace config.audit_config
                (reconcile seed ex s).1)
  unfolding reconcile
  validated-reconcile unicode checker api maps shoot ext ex passed found on same decodes =
      elim (rw found at (validate-eq-ok_iff unicode checker api maps shoot).0 passed) [
        | inl off ↦ absurd (on off)
        | inr admitted ↦ (
          admitted.raw,
          admitted.config,
          admitted.provided,
          decodes admitted.raw ∙ admitted.decoded,
          admitted.accepted,
          λ s. rw (same, admitted.provided, decodes admitted.raw, admitted.decoded) refl,
          λ s.
              rw (same, admitted.provided, decodes admitted.raw, admitted.decoded)
                (deploy-IsDeployed seed.client is_seed.client seed.dashboard_config ex.namespace
                  admitted.config.audit_config s),
        )
      ]
