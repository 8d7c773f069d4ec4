-- ===== src/Tests/Data.antt =====
-- The concrete inputs: checks of other packages that are good enough for them, a configuration, a
-- Shoot that uses it, and an API server with the objects that it refers to.
use gardener_extension_shoot.Common.{
  [], ◌∷◌, lookup, HasDistinctKeys, none, some, true, false, str_eq, if◌then◌else◌, ◌≡◌, refl, ◌⊎◌,
  inl, inr, arith, Bool-cases, subst,
}
use gardener_extension_shoot.Common.Int.{pos}
use gardener_extension_shoot.Api.{TypeMeta, RsyslogRelpConfig, Tls, LoggingRule}
use gardener_extension_shoot.Field.{invalid, text, new_path}
use gardener_extension_shoot.Gardener.{Error, external, Shoot, ObjectKey, Secret, ConfigMap}
use gardener_extension_shoot.Go.Strconv.{Unicode, quote}
use gardener_extension_shoot.Validation.Patterns.{
  Checker, is_sha1_peer, has_invalid_character, is_printable_text,
}
use gardener_extension_shoot.Validation.{validate_rsyslog_relp_config}
use gardener_extension_shoot.Admission.Contents.{Api}
use gardener_extension_shoot.Admission.Shoot.Admitted.{HasMaps}

abbrev pub latin : Unicode
latin = record { is_print_wide = λ r. false }

-- One host name is accepted, no address, and every regular expression.
abbrev pub checker : Checker
checker = record {
  is_valid_ip = λ path s. invalid path (text s) "must be a valid IP address" ∷ [];
  is_dns1123_subdomain = λ s. if str_eq s "relp.example" then [] else "not a subdomain" ∷ [];
  is_wildcard_dns1123_subdomain = λ s. "not a wildcard subdomain" ∷ [];
  compile_posix = λ r. none;
}

abbrev pub type_meta : TypeMeta
type_meta = record { kind = "RsyslogRelpConfig"; api_version = "v1alpha1" }

abbrev pub rule : LoggingRule
rule = record {
  program_names = "kubelet" ∷ "audisp\\syslog" ∷ [];
  severity = some (pos 4);
  message_content = some (record { regex = some "a\"b"; exclude = none });
}

abbrev pub audit_rule : LoggingRule
audit_rule = record { program_names = "a:b" ∷ []; severity = none; message_content = none }

abbrev pub tls : Tls
tls = record {
  enabled = true;
  secret_reference_name = some "relp-tls";
  permitted_peer = "relp.example" ∷ [];
  auth_mode = some "name";
  tls_lib = some "openssl";
}

abbrev pub config : RsyslogRelpConfig
config = record {
  type_meta = type_meta;
  target = "relp.example";
  port = pos 10250;
  tls = some tls;
  logging_rules = rule ∷ [];
  rebind_interval = none;
  timeout = none;
  resume_retry_count = none;
  report_suspension_continuation = some true;
  audit_config = some (record { enabled = true; config_map_reference_name = some "rules" });
}

abbrev pub secret : Secret
secret = record {
  key = record { namespace = "garden-foo"; name = "tls-v1" };
  immutable = some true;
  entries = ("ca", "A") ∷ ("crt", "C") ∷ ("key", "K") ∷ [];
}

abbrev pub config_map : ConfigMap
config_map = record {
  key = record { namespace = "garden-foo"; name = "rules-v1" };
  immutable = some true;
  entries = ("auditd", "-a always") ∷ [];
}

abbrev pub missing : Error
missing = external "not found"

abbrev get_secret : ObjectKey → Error ⊎ Secret
get_secret key = if str_eq key.name "tls-v1" then inr secret else inl missing

abbrev get_config_map : ObjectKey → Error ⊎ ConfigMap
get_config_map key = if str_eq key.name "rules-v1" then inr config_map else inl missing

abbrev pub api : Api
api = record {
  decode_config = λ raw. if str_eq raw "{}" then inr config else inl (external "bad");
  decode_auditd = λ raw. inr (record { type_meta = type_meta; audit_rules = raw });
  get_secret = get_secret;
  get_config_map = get_config_map;
  is_not_found = λ e. true;
  show_key = λ key. key.name;
}

abbrev pub shoot : Shoot
shoot = record {
  namespace = "garden-foo";
  extensions =
      record { type_name = "other"; provider_config = none; disabled = none }
      ∷ record { type_name = "shoot-rsyslog-relp"; provider_config = some "{}"; disabled = none }
      ∷ [];
  resources =
      record { name = "relp-tls"; resource_ref = record { kind = "Secret"; name = "tls-v1" } }
      ∷ record { name = "rules"; resource_ref = record { kind = "ConfigMap"; name = "rules-v1" } }
      ∷ [];
}

pub secret_distinct : HasDistinctKeys secret.entries
unfolding lookup
secret_distinct = (refl, (refl, (refl, tt)))

pub config_map_distinct : HasDistinctKeys config_map.entries
unfolding lookup
config_map_distinct = (refl, tt)

secrets_distinct :
    (key : ObjectKey) (s : Secret) → get_secret key ≡ inr s → HasDistinctKeys s.entries
secrets_distinct key s h = elim (Bool-cases (str_eq key.name "tls-v1")) [
  | inl e ↦
      let same : secret ≡ s = ground arith in
      subst (λ t. HasDistinctKeys t.entries) same secret_distinct
  | inr e ↦ absurd (ground arith)
]

config_maps_distinct :
    (key : ObjectKey) (s : ConfigMap) → get_config_map key ≡ inr s → HasDistinctKeys s.entries
config_maps_distinct key s h = elim (Bool-cases (str_eq key.name "rules-v1")) [
  | inl e ↦
      let same : config_map ≡ s = ground arith in
      subst (λ t. HasDistinctKeys t.entries) same config_map_distinct
  | inr e ↦ absurd (ground arith)
]

pub maps : HasMaps api
maps = record { secrets = secrets_distinct; config_maps = config_maps_distinct }

-- What a run of the validation computes with.
unfoldable pub validation : Unit {0}
unfolding validate_rsyslog_relp_config quote lookup is_sha1_peer has_invalid_character
    is_printable_text
validation = tt

pub valid_config : validate_rsyslog_relp_config latin checker config (new_path "x" []) ≡ []
unfolding validation
valid_config = refl
