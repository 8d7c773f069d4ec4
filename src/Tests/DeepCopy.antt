-- ===== src/Tests/DeepCopy.antt =====
-- The deep copy of a configuration.
use gardener_extension_shoot.Common.{
  ℕ, zero, suc, Option, some, none, true, [], ◌∷◌, ◌≡◌, refl, arith,
}
use mathlib.Core.Option
use gardener_extension_shoot.Common.Int.{pos}
use gardener_extension_shoot.Common.Memory.{Cells, Heap}
use gardener_extension_shoot.Api.{RsyslogRelpConfig}
use gardener_extension_shoot.DeepCopy.{Object, config_object, deep_copy_object_rsyslog_relp_config}
use gardener_extension_shoot.DeepCopy.Layout.{Cell, text, texts, rules, tls, config}
use gardener_extension_shoot.DeepCopy.Holds.{HasRsyslogRelpConfig}
use gardener_extension_shoot.DeepCopy.Laws.{IsClosed, IsApart, deep_copy_object-IsApart}

abbrev value : RsyslogRelpConfig
value = record {
  type_meta = record { kind = "RsyslogRelpConfig"; api_version = "v1" };
  target = "localhost";
  port = pos 10250;
  tls = some (record {
    enabled = true;
    secret_reference_name = some "relp-tls";
    permitted_peer = [];
    auth_mode = none;
    tls_lib = none;
  });
  logging_rules =
      record { program_names = "kubelet" ∷ []; severity = none; message_content = none } ∷ [];
  rebind_interval = none;
  timeout = none;
  resume_retry_count = none;
  report_suspension_continuation = none;
  audit_config = none;
}

abbrev cells : Cells Cell
cells zero = some (
    config (record {
      type_meta = value.type_meta;
      target = value.target;
      port = value.port;
      tls = some 1;
      logging_rules = some 3;
      rebind_interval = none;
      timeout = none;
      resume_retry_count = none;
      report_suspension_continuation = none;
      audit_config = none;
    }))
cells (suc zero) = some (
    tls (record {
      enabled = true;
      secret_reference_name = some 2;
      permitted_peer = none;
      auth_mode = none;
      tls_lib = none;
    }))
cells (suc (suc zero)) = some (text "relp-tls")
cells (suc (suc (suc zero))) =
    some (rules (record { program_names = some 4; severity = none; message_content = none } ∷ []))
cells (suc (suc (suc (suc zero)))) = some (texts ("kubelet" ∷ []))
cells (suc (suc (suc (suc (suc n))))) = none

abbrev heap : Heap Cell
heap = record { next = 5; cell = cells }

closed : IsClosed heap
closed zero x held = omega arith
closed (suc zero) x held = omega arith
closed (suc (suc zero)) x held = omega arith
closed (suc (suc (suc zero))) x held = omega arith
closed (suc (suc (suc (suc zero)))) x held = omega arith
closed (suc (suc (suc (suc (suc n))))) x held = cc

has_value : HasRsyslogRelpConfig cells 0 value
has_value = (
  record {
    type_meta = value.type_meta;
    target = value.target;
    port = value.port;
    tls = some 1;
    logging_rules = some 3;
    rebind_interval = none;
    timeout = none;
    resume_retry_count = none;
    report_suspension_continuation = none;
    audit_config = none;
  },
  refl,
  record {
    type_meta = refl;
    target = refl;
    port = refl;
    tls = (
      _,
      refl,
      record {
        enabled = refl;
        secret_reference_name = (_, refl, refl);
        permitted_peer = tt;
        auth_mode = tt;
        tls_lib = tt;
      },
    );
    logging_rules = (
      _,
      refl,
      (record { program_names = (_, refl, refl); severity = tt; message_content = tt }, tt),
    );
    rebind_interval = tt;
    timeout = tt;
    resume_retry_count = tt;
    continuation = tt;
    audit_config = tt;
  },
)

-- The object is allocated before what it points to.
copied_object :
    Option.map {B = Option Object × ℕ}
      (λ r. (r.0, r.1.next))
      (deep_copy_object_rsyslog_relp_config (some 0) heap)
    ≡ some (some (config_object 5), 10)
unfolding deep_copy_object_rsyslog_relp_config
copied_object = refl

deep_copy_object-IsApart_example :
    IsApart heap 0 value
      (λ d o. (q : ℕ) × (o ≡ some (config_object q)) × HasRsyslogRelpConfig d q value)
      (deep_copy_object_rsyslog_relp_config (some 0) heap)
deep_copy_object-IsApart_example = deep_copy_object-IsApart heap 0 value closed has_value
