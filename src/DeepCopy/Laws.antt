-- ===== src/DeepCopy/Laws.antt =====
-- DeepCopy and DeepCopyObject of a configuration: the original and the copy share nothing.
use gardener_extension_shoot.Common.{ℕ, Option, some, ◌≡◌, ◌<◌, refl, ◌∙◌, ap}
use gardener_extension_shoot.Common.Memory.{Cells, Heap, Memory, pure, copy_pointer, unless_nil}
use gardener_extension_shoot.Common.Memory.Laws.{AgreeFrom, Copies, pure-Copies, >>=-Copies}
use gardener_extension_shoot.Api.{RsyslogRelpConfig}
use gardener_extension_shoot.DeepCopy.{
  copy_number, copy_flag, new_audit_config, copy_rules, new_tls, deep_copy_into_rsyslog_relp_config,
  deep_copy_rsyslog_relp_config, config_object, unless_nil_object,
  deep_copy_object_rsyslog_relp_config,
}
use gardener_extension_shoot.DeepCopy.Layout.{Cell, config_cell, RsyslogRelpConfigStruct}
use gardener_extension_shoot.DeepCopy.Holds.{IsRsyslogRelpConfig, HasRsyslogRelpConfig}
use gardener_extension_shoot.DeepCopy.Fields.{new-Copies, copy_number-Copies, copy_flag-Copies}
use gardener_extension_shoot.DeepCopy.Structs.{
  new_tls-Copies, copy_rules-Copies, new_audit_config-Copies,
}
use gardener_extension_shoot.DeepCopy.Stable.{HasRsyslogRelpConfig-Extends}

-- Nothing lies behind the pointers that are not used yet.
abbrev pub IsClosed : Heap Cell → Type 0
IsClosed h = (r : ℕ) (x : Cell) → h.cell r ≡ some x → r < h.next

-- The code has returned a value that stands apart from the object at `p`: what is written to the cells
-- that were there before does not change what the value stands for, nor what is written to others what
-- `p` stands for. Cells that were there before are as they were.
pub record IsApart {A : Type 0} (h : Heap Cell) (p : ℕ) (v : RsyslogRelpConfig)
    (Has : Cells Cell → A → Type 0) (result : Option (A × Heap Cell)) : Type 0 where
  pub value : A
  pub heap : Heap Cell
  pub returned : result ≡ some (value, heap)
  pub kept : (r : ℕ) → r < h.next → heap.cell r ≡ h.cell r
  pub copied : (d : Cells Cell) → AgreeFrom h.next heap d → Has d value
  pub original :
      (d : Cells Cell) → ((r : ℕ) → r < h.next → d r ≡ heap.cell r) → HasRsyslogRelpConfig d p v

module _ (c : Cells Cell) where
  deep_copy_into_rsyslog_relp_config-Copies :
      (t : RsyslogRelpConfigStruct) (v : RsyslogRelpConfig)
      → IsRsyslogRelpConfig c t v
      → Copies c (deep_copy_into_rsyslog_relp_config t) (λ d u. IsRsyslogRelpConfig d u v)
  unfolding deep_copy_into_rsyslog_relp_config
  deep_copy_into_rsyslog_relp_config-Copies t v is =
      >>=-Copies c (unless_nil new_tls t.tls) _ _ _ (new_tls-Copies c t.tls v.tls is.tls) λ tls.
        >>=-Copies c (unless_nil copy_rules t.logging_rules) _ _ _
          (copy_rules-Copies c t.logging_rules v.logging_rules is.logging_rules)
          λ rules.
            >>=-Copies c (unless_nil copy_number t.rebind_interval) _ _ _
              (copy_number-Copies c t.rebind_interval v.rebind_interval is.rebind_interval)
              λ rebind.
                >>=-Copies c (unless_nil copy_number t.timeout) _ _ _
                  (copy_number-Copies c t.timeout v.timeout is.timeout)
                  λ timeout.
                    >>=-Copies c (unless_nil copy_number t.resume_retry_count) _ _ _
                      (copy_number-Copies c t.resume_retry_count v.resume_retry_count
                        is.resume_retry_count)
                      λ count.
                        >>=-Copies c (unless_nil copy_flag t.report_suspension_continuation) _ _ _
                          (copy_flag-Copies c t.report_suspension_continuation
                            v.report_suspension_continuation is.continuation)
                          λ flag.
                            >>=-Copies c (unless_nil new_audit_config t.audit_config) _ _ _
                              (new_audit_config-Copies c t.audit_config v.audit_config
                                is.audit_config)
                              λ audit.
                                pure-Copies c _ _
                                  λ d h_audit h_flag h_count h_timeout h_rebind h_rules h_tls.
                                    record {
                                      type_meta = is.type_meta;
                                      target = is.target;
                                      port = is.port;
                                      tls = h_tls;
                                      logging_rules = h_rules;
                                      rebind_interval = h_rebind;
                                      timeout = h_timeout;
                                      resume_retry_count = h_count;
                                      continuation = h_flag;
                                      audit_config = h_audit;
                                    }

  deep_copy_object-Copies :
      (p : ℕ) (v : RsyslogRelpConfig)
      → HasRsyslogRelpConfig c p v
      → Copies c
          (deep_copy_object_rsyslog_relp_config (some p))
          (λ d o. (q : ℕ) × (o ≡ some (config_object q)) × HasRsyslogRelpConfig d q v)
  unfolding deep_copy_object_rsyslog_relp_config
  deep_copy_object-Copies p v has =
      >>=-Copies c (deep_copy_rsyslog_relp_config (some p))
        (λ q. pure (unless_nil_object config_object q))
        (λ d q. (r : ℕ) × (q ≡ some r) × HasRsyslogRelpConfig d r v) _
        (>>=-Copies c (copy_pointer config_cell deep_copy_into_rsyslog_relp_config p)
          (λ q. pure (some q)) _ _
          (new-Copies c config_cell deep_copy_into_rsyslog_relp_config IsRsyslogRelpConfig
            deep_copy_into_rsyslog_relp_config-Copies p v has)
          λ q. pure-Copies c (some q) _ λ d held. (q, refl, held))
        λ q.
          pure-Copies c (unless_nil_object config_object q) _
            λ d copied. (copied.0, ap (unless_nil_object config_object) copied.1, copied.2)

IsApart-of_Copies :
    {A : Type 0} (h : Heap Cell) (p : ℕ) (v : RsyslogRelpConfig) (m : Memory Cell A)
    (Has : Cells Cell → A → Type 0)
    → IsClosed h
    → HasRsyslogRelpConfig h.cell p v
    → Copies h.cell m Has
    → IsApart h p v Has (m h)
IsApart-of_Copies h p v m Has closed has copies =
    let run = copies h λ r x held. (closed r x held, held) in
    record {
      value = run.value;
      heap = run.heap;
      returned = run.runs;
      kept = run.keeps;
      copied = run.owned;
      original = λ d agree.
          HasRsyslogRelpConfig-Extends h.cell d
            (λ r x held. let old = closed r x held in agree r old ∙ run.keeps r old ∙ held) p v has;
    }

-- DeepCopyObject of a configuration in memory returns a new object that stands for the same
-- configuration, and the original and the copy share nothing that can be written: the copy keeps its
-- value for any change of the cells that were there before, the original for any change of the others.
pub deep_copy_object-IsApart :
    (h : Heap Cell) (p : ℕ) (v : RsyslogRelpConfig)
    → IsClosed h
    → HasRsyslogRelpConfig h.cell p v
    → IsApart h p v
        (λ d o. (q : ℕ) × (o ≡ some (config_object q)) × HasRsyslogRelpConfig d q v)
        (deep_copy_object_rsyslog_relp_config (some p) h)
deep_copy_object-IsApart h p v closed has =
    IsApart-of_Copies h p v (deep_copy_object_rsyslog_relp_config (some p)) _ closed has
      (deep_copy_object-Copies h.cell p v has)
