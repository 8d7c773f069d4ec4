-- ===== src/Lifecycle/Actuator/Clean.antt =====
-- What the code relies on in a seed, and what the run of the configuration cleaner leaves as it is.
use gardener_extension_shoot.Common.{
  String, List, Map, Option, none, some, Bool, false, Bool-cases, inl, inr, ◌≡◌, refl, ◌∙◌,
}
use gardener_extension_shoot.Common.Outcome.{Outcome}
use gardener_extension_shoot.Common.Effect.{Effect, ◌>>=◌, ◌>>◌, lift}
use gardener_extension_shoot.Common.Effect.Laws.{IsPreorder, Keeps, >>=-Keeps, >>-Keeps}
use gardener_extension_shoot.Gardener.{Error}
use gardener_extension_shoot.Lifecycle.Kube.{KubeObject, ObjectRef, IsClient}
use gardener_extension_shoot.Lifecycle.Monitoring.{monitoring_objects}
use gardener_extension_shoot.Lifecycle.Monitoring.Laws.{AgreeBeside}
use gardener_extension_shoot.Lifecycle.Cleaner.{
  Values, managed_resource_name, compute_resources_data, deploy, destroy, wait, wait_cleanup,
}
use gardener_extension_shoot.Lifecycle.Actuator.{
  ClusterShoot, Seed, run_cleaner, find_alpine_image, find_pause_image, deploy_cleaner,
  destroy_cleaner, clean_rsyslog_relp_configuration,
}

module _ {S : Type 0} (seed : Seed S) (resource : S → String → String → Option (Map String)) where
  -- The states have the same objects, and the same managed resources but for one.
  abbrev pub OnlyResource : String → String → S → S → Type 0
  OnlyResource namespace name s t =
      ((ref : ObjectRef) → seed.client.object t ref ≡ seed.client.object s ref)
      × ((n m : String) → (n ≡ namespace → m ≡ name → ⊥) → resource t n m ≡ resource s n m)

  -- The states have the same managed resources.
  abbrev pub SameResources : S → S → Type 0
  SameResources s t = (n m : String) → resource t n m ≡ resource s n m

  -- What the code relies on: the client does what it should, and a function on a managed resource
  -- changes at most that one, which is not there when the wait for its deletion has succeeded.
  pub record IsSeed : Type 0 where
    pub client : IsClient seed.client
    pub waits : (m w : Effect Error S (Unit {0})) (s : S) → seed.op_wait m w s ≡ (m >> w) s
    pub patches :
        (o : KubeObject) (f : KubeObject → KubeObject) → Keeps SameResources (seed.client.patch o f)
    pub deletes :
        (objects : List KubeObject) → Keeps SameResources (seed.client.delete_objects objects)
    pub creates :
        (n m origin : String) (keep : Bool) (resources : Map String)
        → Keeps (OnlyResource n m) (seed.managed.create_for_shoot n m origin keep resources)
    pub removes :
        (n m : String) (keep : Bool) → Keeps (OnlyResource n m) (seed.managed.delete n m keep)
    pub waits_healthy :
        (n m : String) → Keeps (OnlyResource n m) (seed.managed.wait_until_healthy n m)
    pub waits_deleted :
        (n m : String) → Keeps (OnlyResource n m) (seed.managed.wait_until_deleted n m)
    pub gone :
        (n m : String) (s : S)
        → (seed.managed.wait_until_deleted n m s).0 ≡ Outcome.ok tt
        → resource (seed.managed.wait_until_deleted n m s).1 n m ≡ none

  -- The states agree beside the three objects and the one managed resource of a namespace.
  abbrev pub Beside : String → S → S → Type 0
  Beside namespace s t =
      AgreeBeside seed.client (monitoring_objects seed.client seed.dashboard_config namespace) s t
      × ((n m : String)
          → (n ≡ namespace → m ≡ managed_resource_name → ⊥)
          → resource t n m ≡ resource s n m)

  abbrev pub Cleans : String → S → S → Type 0
  Cleans namespace = OnlyResource namespace managed_resource_name

  pub Cleans-IsPreorder : (namespace : String) → IsPreorder (Cleans namespace)
  Cleans-IsPreorder namespace = record {
    same = λ s. (λ ref. refl, λ n m other. refl);
    after = λ s t u h k. (λ ref. k.0 ref ∙ h.0 ref, λ n m other. k.1 n m other ∙ h.1 n m other);
  }

  pub SameResources-IsPreorder : IsPreorder SameResources
  SameResources-IsPreorder = record { same = λ s n m. refl; after = λ s t u h k n m. k n m ∙ h n m }

  pub Beside-IsPreorder : (namespace : String) → IsPreorder (Beside namespace)
  Beside-IsPreorder namespace = record {
    same = λ s. (λ ref other. refl, λ n m other. refl);
    after = λ s t u h k.
        (λ ref other. k.0 ref other ∙ h.0 ref other, λ n m other. k.1 n m other ∙ h.1 n m other);
  }

  module _ (is_seed : IsSeed) (namespace : String) where
    op_wait-Keeps :
        (m w : Effect Error S (Unit {0}))
        → Keeps (Cleans namespace) m
        → Keeps (Cleans namespace) w
        → Keeps (Cleans namespace) (seed.op_wait m w)
    op_wait-Keeps m w hm hw s =
        rw (is_seed.waits m w s)
          (>>-Keeps (Cleans namespace) (Cleans-IsPreorder namespace) m w hm hw s)

    deploy_cleaner-Keeps :
        (values : Values) (deleted : Option String)
        → Keeps (Cleans namespace) (deploy_cleaner seed namespace values deleted)
    unfolding deploy_cleaner deploy wait
    deploy_cleaner-Keeps values none =
        op_wait-Keeps (deploy seed.managed namespace values) (wait seed.managed namespace values)
          (>>=-Keeps (Cleans namespace) (Cleans-IsPreorder namespace)
            (lift (compute_resources_data seed.managed namespace values)) _
            (Cleans-IsPreorder namespace).same
            (λ resources. is_seed.creates namespace managed_resource_name _ _ resources))
          (is_seed.waits_healthy namespace managed_resource_name)
    deploy_cleaner-Keeps values (some time) = (Cleans-IsPreorder namespace).same

    destroy_cleaner-Keeps :
        (values : Values) → Keeps (Cleans namespace) (destroy_cleaner seed namespace values)
    unfolding destroy_cleaner destroy wait_cleanup
    destroy_cleaner-Keeps values =
        op_wait-Keeps (destroy seed.managed namespace values)
          (wait_cleanup seed.managed namespace values)
          (is_seed.removes namespace managed_resource_name false)
          (is_seed.waits_deleted namespace managed_resource_name)

    run_cleaner-Keeps :
        (shoot : ClusterShoot) (alpine_image pause_image : String)
        → Keeps (Cleans namespace) (run_cleaner seed shoot namespace alpine_image pause_image)
    unfolding run_cleaner
    run_cleaner-Keeps shoot alpine_image pause_image =
        let values : Values = record {
          alpine_image = alpine_image;
          pause_container_image = pause_image;
        } in
        >>-Keeps (Cleans namespace) (Cleans-IsPreorder namespace)
          (deploy_cleaner seed namespace values shoot.deletion_timestamp)
          (destroy_cleaner seed namespace values)
          (deploy_cleaner-Keeps values shoot.deletion_timestamp) (destroy_cleaner-Keeps values)

    pub clean-Keeps :
        (shoot : ClusterShoot)
        → Keeps (Cleans namespace) (clean_rsyslog_relp_configuration seed shoot namespace)
    unfolding clean_rsyslog_relp_configuration
    clean-Keeps shoot = elim (Bool-cases shoot.hibernated) [
      | inl on ↦ rw on (Cleans-IsPreorder namespace).same
      | inr off ↦
          let order = Cleans-IsPreorder namespace in
          rw off (
            >>=-Keeps (Cleans namespace) order (lift (find_alpine_image seed))
              (λ alpine. lift (find_pause_image seed) >>= run_cleaner seed shoot namespace alpine)
              order.same
              λ alpine.
                >>=-Keeps (Cleans namespace) order (lift (find_pause_image seed))
                  (run_cleaner seed shoot namespace alpine) order.same
                  (run_cleaner-Keeps shoot alpine))
    ]
