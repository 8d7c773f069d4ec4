-- ===== src/Setup.antt =====
-- test/common/configuration.go: how the tests of the repository put the extension and its resources
-- into a Shoot. A pointer to a Shoot that is changed is a Shoot that is returned, and an option of the
-- configuration is a function on it.
pub mod Laws
use gardener_extension_shoot.Common.{
  String, List, [], ◌∷◌, ◌++◌, Option, none, some, Bool, true, false, ◌||◌, str_eq, if◌then◌else◌,
}
use gardener_extension_shoot.Common.Int.{ℤ, pos}
use gardener_extension_shoot.Gardener.{NamedResource, ShootExtension, Shoot}
use gardener_extension_shoot.V1alpha1.{RsyslogRelpConfig, LoggingRule, Tls, AuditConfig}

module _ {A : Type 0} (named : A → String) where
  -- slices.IndexFunc, append and the assignment at the index, for elements found by their name
  unfoldable pub add_or_update : String → A → List A → List A
  add_or_update name a [] = a ∷ []
  add_or_update name a (x ∷ xs) =
      if str_eq (named x) name then a ∷ xs else x ∷ add_or_update name a xs

  -- slices.ContainsFunc
  unfoldable pub contains : String → List A → Bool
  contains name [] = false
  contains name (x ∷ xs) = str_eq (named x) name || contains name xs

  -- slices.DeleteFunc
  unfoldable pub remove : String → List A → List A
  remove name [] = []
  remove name (x ∷ xs) =
      let rest = remove name xs in if str_eq (named x) name then rest else x ∷ rest

abbrev pub default_provider_config : String → RsyslogRelpConfig
default_provider_config api_version = record {
  type_meta = record { kind = "RsyslogRelpConfig"; api_version = api_version };
  target = "10.2.64.54";
  port = pos 80;
  logging_rules =
      record {
        program_names = "test-program" ∷ [];
        severity = some (pos 1);
        message_content = none;
      }
      ∷ [];
  tls = none;
  rebind_interval = none;
  timeout = none;
  resume_retry_count = none;
  report_suspension_continuation = none;
  audit_config = none;
}

abbrev pub apply_options :
    List (RsyslogRelpConfig → RsyslogRelpConfig) → RsyslogRelpConfig → RsyslogRelpConfig
apply_options [] config = config
apply_options (opt ∷ opts) config = apply_options opts (opt config)

-- the extension's type, and the name of a resource
abbrev pub extension_name : ShootExtension → String
extension_name ext = ext.type_name

abbrev pub resource_name : NamedResource → String
resource_name ref = ref.name

-- json.Marshal and the text of the schema's version are arguments; the marshalling succeeds
unfoldable pub add_or_update_rsyslog_relp_extension :
    (RsyslogRelpConfig → String)
    → String
    → List (RsyslogRelpConfig → RsyslogRelpConfig)
    → Shoot
    → Shoot
unfolding add_or_update
add_or_update_rsyslog_relp_extension marshal api_version opts shoot = record shoot {
  extensions =
      add_or_update extension_name "shoot-rsyslog-relp"
        (record {
          type_name = "shoot-rsyslog-relp";
          provider_config =
              some (marshal (apply_options opts (default_provider_config api_version)));
          disabled = none;
        })
        shoot.extensions;
}

unfoldable pub has_rsyslog_relp_extension : Shoot → Bool
unfolding contains
has_rsyslog_relp_extension shoot = contains extension_name "shoot-rsyslog-relp" shoot.extensions

unfoldable pub remove_rsyslog_relp_extension : Shoot → Shoot
unfolding remove
remove_rsyslog_relp_extension shoot = record shoot {
  extensions = remove extension_name "shoot-rsyslog-relp" shoot.extensions;
}

unfoldable pub add_or_update_resource_reference : Shoot → String → String → String → Shoot
unfolding add_or_update
add_or_update_resource_reference shoot resource_ref_name kind name = record shoot {
  resources =
      add_or_update resource_name resource_ref_name
        (record { name = resource_ref_name; resource_ref = record { kind = kind; name = name } })
        shoot.resources;
}

unfoldable pub remove_resource_reference : Shoot → String → Shoot
unfolding remove
remove_resource_reference shoot resource_ref_name = record shoot {
  resources = remove resource_name resource_ref_name shoot.resources;
}

unfoldable pub has_resource_reference : Shoot → String → Bool
unfolding contains
has_resource_reference shoot resource_ref_name =
    contains resource_name resource_ref_name shoot.resources

unfoldable pub with_port : ℤ → RsyslogRelpConfig → RsyslogRelpConfig
with_port port config = record config { port = port }

unfoldable pub with_target : String → RsyslogRelpConfig → RsyslogRelpConfig
with_target target config = record config { target = target }

unfoldable pub with_audit_config : Option AuditConfig → RsyslogRelpConfig → RsyslogRelpConfig
with_audit_config audit_config config = record config { audit_config = audit_config }

unfoldable pub append_logging_rule : LoggingRule → RsyslogRelpConfig → RsyslogRelpConfig
append_logging_rule rule config = record config {
  logging_rules = config.logging_rules ++ rule ∷ [];
}

unfoldable pub with_tls_with_secret_ref_name_and_tls_lib :
    String → String → RsyslogRelpConfig → RsyslogRelpConfig
with_tls_with_secret_ref_name_and_tls_lib secret_ref_name tls_lib config = record config {
  tls = some (record {
    enabled = true;
    secret_reference_name = some secret_ref_name;
    permitted_peer = "rsyslog-server" ∷ [];
    auth_mode = some "name";
    tls_lib = some tls_lib;
  });
}
