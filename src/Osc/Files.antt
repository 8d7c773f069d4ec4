-- ===== src/Osc/Files.antt =====
-- The files of an OperatingSystemConfig, and what the webhook takes from other packages.
use gardener_extension_shoot.Common.{String, ℕ, List, Option, Text, Bool, ◌⊎◌}
use gardener_extension_shoot.Common.Int.{ℤ}
use gardener_extension_shoot.Gardener.{Error, NamedResource}

-- extensionsv1alpha1.FileContent: the data with its encoding, or a key of a secret
pub data FileContent : Type 0 where
  inline : String → Text → FileContent
  secret_ref : String → String → FileContent

-- extensionsv1alpha1.File; the permissions as the number that Go reads in octal
pub record File : Type 0 where
  pub path : String
  pub permissions : Option ℕ
  pub content : FileContent

-- extensionsv1alpha1.Unit
pub record SystemdUnit : Type 0 where
  pub name : String
  pub command : Option String
  pub enable : Option Bool
  pub content : Option String

-- the fields of the Cluster resource and of its Shoot that the webhook reads
pub record Cluster : Type 0 where
  pub name : String
  pub shoot_name : String
  pub shoot_uid : String
  pub resources : List NamedResource

-- the values of the template under the key "tls"
pub record TlsValues : Type 0 where
  pub ca_path : String
  pub cert_path : String
  pub key_path : String
  pub enabled : Bool
  pub permitted_peer : Text
  pub auth_mode : String
  pub tls_lib : String

-- the map of values of the template; "tls" is set later than the others, or not at all
pub record Values : Type 0 where
  pub target : String
  pub port : ℤ
  pub rsyslog_relp_queue_spool_dir : String
  pub project_name : Text
  pub shoot_name : String
  pub shoot_uid : String
  pub filters : List Text
  pub rebind_interval : Option ℤ
  pub timeout : Option ℤ
  pub resume_retry_count : Option ℤ
  pub report_suspension_continuation : Option String
  pub tls : Option TlsValues

-- The executed template, helpers of Gardener, and the scripts that are embedded.
pub record Library : Type 0 where
  pub execute : Values → Error ⊎ Text
  pub encode_base64 : Text → Text
  pub get_resource_by_name : List NamedResource → String → Option NamedResource
  pub referenced_resources_prefix : String
  pub command_start : String
  pub configure_rsyslog_script : Text
  pub process_rsyslog_pstats_script : Text
