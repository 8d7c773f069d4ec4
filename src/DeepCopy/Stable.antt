-- ===== src/DeepCopy/Stable.antt =====
-- What a pointer stands for does not change when cells are added.
use gardener_extension_shoot.Common.{String, ℕ, List, [], ◌∷◌, Option, none, some, ◌≡◌}
use gardener_extension_shoot.Common.Memory.{Cells}
use gardener_extension_shoot.Common.Memory.Laws.{Pointer, Slice}
use gardener_extension_shoot.DeepCopy.Layout.{
  Cell, text, number, flag, texts, rules, message, tls, audit, config,
}
use gardener_extension_shoot.DeepCopy.Holds.{
  Holds, Same, HasTexts, IsAuditConfig, IsMessageContent, IsLoggingRule, AreLoggingRules, IsTls,
  IsRsyslogRelpConfig, HasRsyslogRelpConfig,
}

-- Each cell of `c` is also in `d`.
abbrev pub Extends : Cells Cell → Cells Cell → Type 0
Extends c d = (r : ℕ) (x : Cell) → c r ≡ some x → d r ≡ some x

-- The relation goes on to hold.
abbrev pub Goes : {T A : Type 0} → (Cells Cell → T → A → Type 0) → Cells Cell → Cells Cell → Type 0
Goes {T = T} {A = A} Is c d = (t : T) (a : A) → Is c t a → Is d t a

module _ (c d : Cells Cell) (extends : Extends c d) where
  Holds-Extends :
      {T A : Type 0} (wrap : T → Cell) (Is : Cells Cell → T → A → Type 0)
      → Goes Is c d
      → Goes (Holds wrap Is) c d
  Holds-Extends wrap Is goes p a (t, at, is) = (t, extends p (wrap t) at, goes t a is)

  Pointer-Extends :
      {A : Type 0} (P : Cells Cell → ℕ → A → Type 0)
      → Goes P c d
      → (p : Option ℕ) (v : Option A) → Pointer (P c) p v
      → Pointer (P d) p v
  Pointer-Extends P goes none none held = tt
  Pointer-Extends P goes none (some a) held = held
  Pointer-Extends P goes (some p) none held = held
  Pointer-Extends P goes (some p) (some a) held = goes p a held

  Slice-Extends :
      {A : Type 0} (P : Cells Cell → ℕ → List A → Type 0)
      → Goes P c d
      → (p : Option ℕ) (vs : List A) → Slice (P c) p vs
      → Slice (P d) p vs
  Slice-Extends P goes none [] held = tt
  Slice-Extends P goes none (v ∷ vs) held = held
  Slice-Extends P goes (some p) vs held = goes p vs held

  leaf-Extends : {A : Type 0} (wrap : A → Cell) → Goes {T = ℕ} {A = A} (Holds wrap Same) c d
  leaf-Extends wrap = Holds-Extends wrap Same λ t a same. same

  Pointer-Extends_leaf :
      {A : Type 0} (wrap : A → Cell) (p : Option ℕ) (v : Option A)
      → Pointer (Holds wrap Same c) p v
      → Pointer (Holds wrap Same d) p v
  Pointer-Extends_leaf wrap = Pointer-Extends (Holds wrap Same) (leaf-Extends wrap)

  Slice-Extends_texts :
      (p : Option ℕ) (vs : List String) → Slice (HasTexts c) p vs → Slice (HasTexts d) p vs
  Slice-Extends_texts = Slice-Extends HasTexts (leaf-Extends texts)

  IsAuditConfig-Extends : Goes IsAuditConfig c d
  IsAuditConfig-Extends t v is = record {
    enabled = is.enabled;
    reference = Pointer-Extends_leaf text _ _ is.reference;
  }

  IsMessageContent-Extends : Goes IsMessageContent c d
  IsMessageContent-Extends t v is = record {
    regex = Pointer-Extends_leaf text _ _ is.regex;
    exclude = Pointer-Extends_leaf text _ _ is.exclude;
  }

  IsLoggingRule-Extends : Goes IsLoggingRule c d
  IsLoggingRule-Extends t v is = record {
    program_names = Slice-Extends_texts _ _ is.program_names;
    severity = Pointer-Extends_leaf number _ _ is.severity;
    message_content =
        Pointer-Extends (Holds message IsMessageContent)
          (Holds-Extends message IsMessageContent IsMessageContent-Extends) _ _ is.message_content;
  }

  AreLoggingRules-Extends : Goes AreLoggingRules c d
  AreLoggingRules-Extends [] [] are = tt
  AreLoggingRules-Extends [] (v ∷ vs) are = are
  AreLoggingRules-Extends (t ∷ ts) [] are = are
  AreLoggingRules-Extends (t ∷ ts) (v ∷ vs) are =
      (IsLoggingRule-Extends t v are.0, AreLoggingRules-Extends ts vs are.1)

  IsTls-Extends : Goes IsTls c d
  IsTls-Extends t v is = record {
    enabled = is.enabled;
    secret_reference_name = Pointer-Extends_leaf text _ _ is.secret_reference_name;
    permitted_peer = Slice-Extends_texts _ _ is.permitted_peer;
    auth_mode = Pointer-Extends_leaf text _ _ is.auth_mode;
    tls_lib = Pointer-Extends_leaf text _ _ is.tls_lib;
  }

  IsRsyslogRelpConfig-Extends : Goes IsRsyslogRelpConfig c d
  IsRsyslogRelpConfig-Extends t v is = record {
    type_meta = is.type_meta;
    target = is.target;
    port = is.port;
    tls = Pointer-Extends (Holds tls IsTls) (Holds-Extends tls IsTls IsTls-Extends) _ _ is.tls;
    logging_rules =
        Slice-Extends (Holds rules AreLoggingRules)
          (Holds-Extends rules AreLoggingRules AreLoggingRules-Extends) _ _ is.logging_rules;
    rebind_interval = Pointer-Extends_leaf number _ _ is.rebind_interval;
    timeout = Pointer-Extends_leaf number _ _ is.timeout;
    resume_retry_count = Pointer-Extends_leaf number _ _ is.resume_retry_count;
    continuation = Pointer-Extends_leaf flag _ _ is.continuation;
    audit_config =
        Pointer-Extends (Holds audit IsAuditConfig)
          (Holds-Extends audit IsAuditConfig IsAuditConfig-Extends) _ _ is.audit_config;
  }

  pub HasRsyslogRelpConfig-Extends : Goes HasRsyslogRelpConfig c d
  HasRsyslogRelpConfig-Extends =
      Holds-Extends config IsRsyslogRelpConfig IsRsyslogRelpConfig-Extends
