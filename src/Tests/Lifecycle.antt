-- ===== src/Tests/Lifecycle.antt =====
-- The controller, over a seed whose objects and managed resources are functions.
use gardener_extension_shoot.Common.{
  String, List, [], ◌∷◌, Map, lookup, Option, none, some, Bool, true, false, ◌&&◌, ◌||◌, str_eq,
  eq_iff, if◌then◌else◌, ◌≡◌, ◌≢◌, inl, inr, ◌↔◌, refl, arith, Bool-cases,
}
use gardener_extension_shoot.Common.Outcome.{ok}
use gardener_extension_shoot.Common.Effect.{Effect, ◌>>◌, done, modify}
use gardener_extension_shoot.Api.{RsyslogRelpConfig}
use gardener_extension_shoot.Gardener.{Error, ShootExtension}
use gardener_extension_shoot.Validation.Accepted.{IsAccepted}
use gardener_extension_shoot.Admission.Shoot.Admitted.{first_extension}
use gardener_extension_shoot.Lifecycle.Kube.{
  Kind, config_map_kind, prometheus_rule_kind, scrape_config_kind, KubeObject, ObjectRef, ref_of,
  Client, IsClient, IsAmong, or_initial,
}
use gardener_extension_shoot.Lifecycle.Monitoring.{deploy_monitoring_config, monitoring_objects}
use gardener_extension_shoot.Lifecycle.Monitoring.Laws.{IsDeployed, deploy-IsDeployed}
use gardener_extension_shoot.Lifecycle.Cleaner.{ManagedResources, managed_resource_name}
use gardener_extension_shoot.Lifecycle.Actuator.{ClusterShoot, Extension, Seed, reconcile, delete}
use gardener_extension_shoot.Lifecycle.Actuator.Clean.{IsSeed, Beside}
use gardener_extension_shoot.Lifecycle.Actuator.Frame.{
  here, next, reconciles, deletes, Reach-Beside,
}
use gardener_extension_shoot.Lifecycle.Actuator.Laws.{delete-removes, validated-reconcile}
use gardener_extension_shoot.Tests.Data.{latin, checker, shoot, api, maps}
use gardener_extension_shoot.Tests.Rsyslog.{shoot_admitted}

record State : Type 0 where
  objects : ObjectRef → Option KubeObject
  resources : String → String → Option (Map String)

abbrev kind_eq : Kind → Kind → Bool
kind_eq config_map_kind config_map_kind = true
kind_eq prometheus_rule_kind prometheus_rule_kind = true
kind_eq scrape_config_kind scrape_config_kind = true
kind_eq _ _ = false

kind_eq_sound : (a b : Kind) → kind_eq a b ≡ true → a ≡ b
kind_eq_sound config_map_kind config_map_kind h = refl
kind_eq_sound prometheus_rule_kind prometheus_rule_kind h = refl
kind_eq_sound scrape_config_kind scrape_config_kind h = refl
kind_eq_sound config_map_kind prometheus_rule_kind h = cc
kind_eq_sound config_map_kind scrape_config_kind h = cc
kind_eq_sound prometheus_rule_kind config_map_kind h = cc
kind_eq_sound prometheus_rule_kind scrape_config_kind h = cc
kind_eq_sound scrape_config_kind config_map_kind h = cc
kind_eq_sound scrape_config_kind prometheus_rule_kind h = cc

kind_eq_self : (a : Kind) → kind_eq a a ≡ true
kind_eq_self config_map_kind = refl
kind_eq_self prometheus_rule_kind = refl
kind_eq_self scrape_config_kind = refl

abbrev ref_eq : ObjectRef → ObjectRef → Bool
ref_eq a b = kind_eq a.kind b.kind && (str_eq a.namespace b.namespace && str_eq a.name b.name)

ref_eq_sound : (a b : ObjectRef) → ref_eq a b ≡ true → a ≡ b
ref_eq_sound a b h =
    ground
      (arith, kind_eq_sound a.kind b.kind, eq_iff a.namespace b.namespace, eq_iff a.name b.name)

ref_eq_self : (a : ObjectRef) → ref_eq a a ≡ true
ref_eq_self a =
    ground (arith, kind_eq_self a.kind, eq_iff a.namespace a.namespace, eq_iff a.name a.name)

among : ObjectRef → List KubeObject → Bool
among ref [] = false
among ref (o ∷ objects) = ref_eq ref (ref_of o) || among ref objects

among_iff :
    (ref : ObjectRef) (objects : List KubeObject) → (among ref objects ≡ true) ↔ IsAmong ref objects
unfolding among
among_iff ref [] = (λ h. cc, λ h. absurd h)
among_iff ref (o ∷ objects) =
    ground (arith, ref_eq_sound ref (ref_of o), ref_eq_self ref, among_iff ref objects)

abbrev patch : KubeObject → (KubeObject → KubeObject) → Effect Error State (Unit {0})
patch o f = modify λ s. record s {
  objects = λ ref.
      if ref_eq ref (ref_of o)
      then some (f (or_initial o (s.objects (ref_of o))))
      else s.objects ref;
}

abbrev delete_objects : List KubeObject → Effect Error State (Unit {0})
unfolding among
delete_objects objects =
    modify λ s. record s { objects = λ ref. if among ref objects then none else s.objects ref }

abbrev set_resource : String → String → Option (Map String) → Effect Error State (Unit {0})
set_resource n m value =
    modify λ s. record s {
      resources = λ i j. if str_eq i n && str_eq j m then value else s.resources i j;
    }

abbrev client : Client State
client = record {
  object = λ s ref. s.objects ref;
  patch = patch;
  delete_objects = delete_objects;
  set_label = λ labels key value. (key, value) ∷ labels;
  config_object_name = λ name prometheus. name;
  config_object_labels = λ prometheus. [];
  standard_metric_relabel_config = λ regex. [];
  scheme_https = "HTTPS";
  namespace_system = "kube-system";
}

abbrev managed : ManagedResources State
managed = record {
  constants = record {
    namespace_system = "kube-system";
    priority_class_name = "gardener-shoot-system-700";
    seccomp_profile_runtime_default = "RuntimeDefault";
    pull_if_not_present = "IfNotPresent";
    mount_propagation_host_to_container = "HostToContainer";
  };
  serialize = λ daemon_set. inr (("daemonset", daemon_set.name) ∷ []);
  create_for_shoot = λ n m origin keep resources. set_resource n m (some resources);
  delete = λ n m keep. set_resource n m none;
  wait_until_healthy = λ n m. done;
  wait_until_deleted = λ n m. set_resource n m none;
}

abbrev cluster_shoot : ClusterShoot
cluster_shoot = record { deletion_timestamp = none; hibernated = false }

abbrev seed : Seed State
seed = record {
  client = client;
  managed = managed;
  dashboard_config = "{}";
  decode_config = api.decode_config;
  find_image = λ name. inr name;
  get_cluster = λ namespace s. inr (some cluster_shoot);
  op_wait = λ m w. m >> w;
}

abbrev resource : State → String → String → Option (Map String)
resource s n m = s.resources n m

patched :
    (o : KubeObject) (f : KubeObject → KubeObject) (s : State)
    → (patch o f s).0 ≡ ok tt
    → (patch o f s).1.objects (ref_of o) ≡ some (f (or_initial o (s.objects (ref_of o))))
patched o f s h = rw (ref_eq_self (ref_of o)) refl

patch_frame :
    (o : KubeObject) (f : KubeObject → KubeObject) (s : State) (ref : ObjectRef)
    → ref ≢ ref_of o
    → (patch o f s).1.objects ref ≡ s.objects ref
patch_frame o f s ref differ = elim (Bool-cases (ref_eq ref (ref_of o))) [
  | inl e ↦ absurd (differ (ref_eq_sound ref (ref_of o) e))
  | inr e ↦ rw e refl
]

deleted :
    (objects : List KubeObject) (s : State) (ref : ObjectRef)
    → IsAmong ref objects
    → (delete_objects objects s).1.objects ref ≡ none
unfolding delete_objects
deleted objects s ref h = rw ((among_iff ref objects).1 h) refl

delete_frame :
    (objects : List KubeObject) (s : State) (ref : ObjectRef)
    → (IsAmong ref objects → ⊥)
    → (delete_objects objects s).1.objects ref ≡ s.objects ref
unfolding delete_objects
delete_frame objects s ref other = elim (Bool-cases (among ref objects)) [
  | inl e ↦ absurd (other ((among_iff ref objects).0 e))
  | inr e ↦ rw e refl
]

is_client : IsClient client
unfolding lookup
is_client = record {
  patched = patched;
  patch_frame = patch_frame;
  deleted = λ objects s ref passed. deleted objects s ref;
  delete_frame = delete_frame;
  labelled = λ labels key value k. refl;
}

set_resource_frame :
    (n m : String) (value : Option (Map String)) (s : State) (i j : String)
    → (i ≡ n → j ≡ m → ⊥)
    → (set_resource n m value s).1.resources i j ≡ s.resources i j
set_resource_frame n m value s i j other = ground (arith, eq_iff i n, eq_iff j m)

set_resource_self :
    (n m : String) (value : Option (Map String)) (s : State)
    → (set_resource n m value s).1.resources n m ≡ value
set_resource_self n m value s = ground (arith, eq_iff n n, eq_iff m m)

is_seed : IsSeed seed resource
unfolding delete_objects
is_seed = record {
  client = is_client;
  waits = λ m w s. refl;
  patches = λ o f s n m. refl;
  deletes = λ objects s n m. refl;
  creates = λ n m origin keep resources s. (λ ref. refl, set_resource_frame n m _ s);
  removes = λ n m keep s. (λ ref. refl, set_resource_frame n m none s);
  waits_healthy = λ n m s. (λ ref. refl, λ i j other. refl);
  waits_deleted = λ n m s. (λ ref. refl, set_resource_frame n m none s);
  gone = λ n m s passed. set_resource_self n m none s;
}

abbrev empty_state : State
empty_state = record { objects = λ ref. none; resources = λ n m. none }

abbrev extension : Extension
extension = record { namespace = "shoot--foo--bar"; provider_config = some "{}" }

reconciled : (reconcile seed extension empty_state).0 ≡ ok tt
unfolding reconcile
reconciled = refl

abbrev reconciled_state : State
unfolding reconcile
reconciled_state = (reconcile seed extension empty_state).1

delete_passes : (delete seed extension reconciled_state).0 ≡ ok tt
unfolding reconciled_state delete delete_objects
delete_passes = refl

deploy_passes : (deploy_monitoring_config client "{}" "shoot--foo--bar" none empty_state).0 ≡ ok tt
unfolding deploy_monitoring_config
deploy_passes = refl

deploy-IsDeployed_example :
    IsDeployed client "{}" "shoot--foo--bar" none
      (deploy_monitoring_config client "{}" "shoot--foo--bar" none empty_state).1
deploy-IsDeployed_example =
    deploy-IsDeployed client is_client "{}" "shoot--foo--bar" none empty_state deploy_passes

Reach-Beside_example :
    Beside seed resource "shoot--foo--bar" empty_state
      (delete seed extension (reconcile seed extension empty_state).1).1
Reach-Beside_example =
    Reach-Beside seed resource is_seed "shoot--foo--bar"
      (next (next here (reconciles (some "{}"))) (deletes (some "{}")))

delete-removes_example :
    ((ref : ObjectRef)
      → IsAmong ref (monitoring_objects client "{}" "shoot--foo--bar")
      → (delete seed extension reconciled_state).1.objects ref ≡ none)
    × (cluster_shoot.hibernated ≡ false
        → (delete seed extension reconciled_state).1.resources "shoot--foo--bar"
            managed_resource_name
          ≡ none)
delete-removes_example =
    delete-removes seed resource is_seed extension cluster_shoot reconciled_state refl delete_passes

abbrev shoot_extension : ShootExtension
shoot_extension = record {
  type_name = "shoot-rsyslog-relp";
  provider_config = some "{}";
  disabled = none;
}

extension_first : first_extension shoot.extensions ≡ some shoot_extension
unfolding first_extension
extension_first = refl

validated-reconcile_example :
    (raw : String) × (config : RsyslogRelpConfig) × (shoot_extension.provider_config ≡ some raw)
    × (seed.decode_config raw ≡ inr config)
    × IsAccepted latin checker config
    × ((s : State)
        → reconcile seed extension s
          ≡ deploy_monitoring_config client "{}" "shoot--foo--bar" config.audit_config s)
    × ((s : State)
        → (reconcile seed extension s).0 ≡ ok tt
        → IsDeployed client "{}" "shoot--foo--bar" config.audit_config
            (reconcile seed extension s).1)
validated-reconcile_example =
    validated-reconcile seed resource is_seed latin checker api maps shoot shoot_extension extension
      shoot_admitted extension_first (λ e. cc) refl (λ raw. refl)
