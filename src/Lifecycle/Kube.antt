-- ===== src/Lifecycle/Kube.antt =====
-- The objects of the seed that the controller writes, and the client that writes them. The state of
-- the seed is a type of its own; what an object is in a state is read by `object`.
use gardener_extension_shoot.Common.{
  String, List, [], ◌∷◌, Map, lookup, Option, none, some, Bool, str_eq, if◌then◌else◌, ◌≡◌, ◌≢◌,
  ◌⊎◌,
}
use gardener_extension_shoot.Common.Outcome.{ok}
use gardener_extension_shoot.Common.Effect.{Effect}
use gardener_extension_shoot.Gardener.{Error}

-- monitoringv1.Rule; the duration of `For` as a text
pub record Rule : Type 0 where
  pub alert : String
  pub expr : String
  pub duration : Option String
  pub labels : Map String
  pub annotations : Map String

-- monitoringv1.RuleGroup
pub record RuleGroup : Type 0 where
  pub name : String
  pub rules : List Rule

-- corev1.SecretKeySelector
pub record SecretKeySelector : Type 0 where
  pub name : String
  pub key : String

-- monitoringv1alpha1.KubernetesSDConfig
pub record KubernetesSdConfig : Type 0 where
  pub api_server : Option String
  pub role : String
  pub namespaces : List String
  pub credentials : SecretKeySelector
  pub insecure_skip_verify : Option Bool
  pub follow_redirects : Option Bool

-- monitoringv1.RelabelConfig; an empty text for a field that is not set
pub record RelabelConfig : Type 0 where
  pub source_labels : List String
  pub action : String
  pub regex : String
  pub target_label : String
  pub replacement : Option String

-- monitoringv1alpha1.ScrapeConfigSpec
pub record ScrapeConfigSpec : Type 0 where
  pub honor_labels : Option Bool
  pub scrape_timeout : Option String
  pub scheme : Option String
  pub insecure_skip_verify : Option Bool
  pub credentials : SecretKeySelector
  pub kubernetes_sd_configs : List KubernetesSdConfig
  pub relabel_configs : List RelabelConfig
  pub metric_relabel_configs : List RelabelConfig

pub data Kind : Type 0 where
  config_map_kind prometheus_rule_kind scrape_config_kind : Kind

-- what is beside the metadata, for each of the kinds
pub data Content : Type 0 where
  config_map : Map String → Content
  prometheus_rule : List RuleGroup → Content
  scrape_config : Option ScrapeConfigSpec → Content

abbrev pub kind_of : Content → Kind
kind_of (config_map m) = config_map_kind
kind_of (prometheus_rule groups) = prometheus_rule_kind
kind_of (scrape_config spec) = scrape_config_kind

pub record KubeObject : Type 0 where
  pub namespace : String
  pub name : String
  pub labels : Map String
  pub content : Content

-- what names an object
pub record ObjectRef : Type 0 where
  pub kind : Kind
  pub namespace : String
  pub name : String

abbrev pub ref_of : KubeObject → ObjectRef
ref_of o = record { kind = kind_of o.content; namespace = o.namespace; name = o.name }

-- The client and the helpers of Gardener that write objects: GetAndCreateOrMergePatch,
-- DeleteObjects, SetMetaDataLabel, ConfigObjectMeta and StandardMetricRelabelConfig;
-- and two constants of other packages.
pub record Client (S : Type 0) : Type 0 where
  pub object : S → ObjectRef → Option KubeObject
  pub patch : KubeObject → (KubeObject → KubeObject) → Effect Error S (Unit {0})
  pub delete_objects : List KubeObject → Effect Error S (Unit {0})
  pub set_label : Map String → String → String → Map String
  pub config_object_name : String → String → String
  pub config_object_labels : String → Map String
  pub standard_metric_relabel_config : String → List RelabelConfig
  pub scheme_https : String
  pub namespace_system : String

abbrev pub or_initial : KubeObject → Option KubeObject → KubeObject
or_initial o none = o
or_initial o (some found) = found

-- An object is one of a list, by its kind, namespace and name.
abbrev pub IsAmong : ObjectRef → List KubeObject → Type 0
IsAmong ref [] = ⊥
IsAmong ref (o ∷ objects) = (ref ≡ ref_of o) ⊎ IsAmong ref objects

-- What the code relies on. A patch that succeeds leaves the changed object, or the changed initial
-- one if there was none; a deletion that succeeds leaves none of the objects. No other object is
-- touched, whether they succeed or not.
pub record IsClient {S : Type 0} (client : Client S) : Type 0 where
  pub patched :
      (o : KubeObject) (f : KubeObject → KubeObject) (s : S)
      → (client.patch o f s).0 ≡ ok tt
      → client.object (client.patch o f s).1 (ref_of o)
        ≡ some (f (or_initial o (client.object s (ref_of o))))
  pub patch_frame :
      (o : KubeObject) (f : KubeObject → KubeObject) (s : S) (ref : ObjectRef)
      → ref ≢ ref_of o
      → client.object (client.patch o f s).1 ref ≡ client.object s ref
  pub deleted :
      (objects : List KubeObject) (s : S) (ref : ObjectRef)
      → (client.delete_objects objects s).0 ≡ ok tt
      → IsAmong ref objects
      → client.object (client.delete_objects objects s).1 ref ≡ none
  pub delete_frame :
      (objects : List KubeObject) (s : S) (ref : ObjectRef)
      → (IsAmong ref objects → ⊥)
      → client.object (client.delete_objects objects s).1 ref ≡ client.object s ref
  pub labelled :
      (labels : Map String) (key value k : String)
      → lookup k (client.set_label labels key value)
        ≡ (if str_eq key k then some value else lookup k labels)
