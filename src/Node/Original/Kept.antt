-- ===== src/Node/Original/Kept.antt =====
-- The original rules are kept, in their place or in the backup, through whatever happens to a node.
use gardener_extension_shoot.Common.{
  ℕ, Option, none, some, Bool, if_cases, inl, inr, ◌⊎◌, ◌≡◌, refl, ◌∙◌, arith,
}
use gardener_extension_shoot.Common.Outcome.{Outcome, ok, err, panic}
use gardener_extension_shoot.Common.Effect.{Effect, proceed}
use gardener_extension_shoot.Common.Effect.Laws.{IsPreorder, Keeps}
use gardener_extension_shoot.Node.{Contents, Load, AuditState, Node}
use gardener_extension_shoot.Node.Audit.{
  remove_with, remove_auditd_config, back_up, replace_rules, load_and_report, enable_plugin,
  start_auditd, stop_audit_socket, install_rules, configure_auditd_with, configure_auditd,
}
use gardener_extension_shoot.Node.Parts.{PartsKeep, installed-Keeps}
use gardener_extension_shoot.Node.Script.{
  configure_auditd_if_installed, configure_rsyslog_if_installed, configure,
}

module _ {D : Type 0} where
  -- The original rules are in the backup or, if there is none, in their place.
  abbrev pub HasOriginal : D → AuditState D → Type 0
  HasOriginal o n = (n.backup ≡ some o) ⊎ ((n.backup ≡ none) × (n.rules ≡ some o))

  abbrev SameBackup : AuditState D → AuditState D → Type 0
  SameBackup s t = t.backup ≡ s.backup

  SameBackup-IsPreorder : IsPreorder SameBackup
  SameBackup-IsPreorder = record { same = λ s. refl; after = λ s t u h k. k ∙ h }

  module _ (contents : Contents D) (load : D → Load) where
    replace_rules-Keeps : (osc : D) → Keeps SameBackup (replace_rules contents osc)
    unfolding replace_rules
    replace_rules-Keeps osc n = ground arith

    load_and_report-Keeps :
        (changed : Bool) → Keeps SameBackup (load_and_report contents load changed)
    unfolding load_and_report
    load_and_report-Keeps changed n = ground arith

    enable_plugin-Keeps : Keeps SameBackup (enable_plugin)
    unfolding enable_plugin
    enable_plugin-Keeps n = ground arith

    start_auditd-Keeps : (restart : Bool) → Keeps SameBackup (start_auditd restart)
    unfolding start_auditd
    start_auditd-Keeps restart n = ground arith

    stop_audit_socket-Keeps : Keeps SameBackup (stop_audit_socket)
    unfolding stop_audit_socket
    stop_audit_socket-Keeps n = ground arith

    parts : PartsKeep contents load SameBackup
    parts = record {
      follow = record {
        order = SameBackup-IsPreorder;
        reports = load_and_report-Keeps;
        enables = enable_plugin-Keeps;
        starts = start_auditd-Keeps;
        stops = stop_audit_socket-Keeps;
      };
      replaces = replace_rules-Keeps;
    }

    backed_up :
        (o : D) (n : AuditState D) → HasOriginal o n → (back_up n n.backup n.rules).backup ≡ some o
    backed_up o n (inl held) = rw held refl
    backed_up o n (inr (none_yet, there)) = rw (none_yet, there) refl

    install_rules-HasOriginal :
        (o osc : D) (n : AuditState D)
        → HasOriginal o n
        → HasOriginal o (install_rules contents load osc n).1
    unfolding install_rules
    install_rules-HasOriginal o osc n has = inl (
        installed-Keeps contents load SameBackup parts osc (back_up n n.backup n.rules)
        ∙ backed_up o n has)

    remove_with-HasOriginal :
        (o : D) (n : AuditState D) (backup : Option D)
        → (backup ≡ some o) ⊎ ((backup ≡ none) × HasOriginal o n)
        → HasOriginal o (remove_with n backup)
    remove_with-HasOriginal o n none (inl held) = cc
    remove_with-HasOriginal o n none (inr (none_yet, has)) = has
    remove_with-HasOriginal o n (some b) (inl held) = inr (refl, held)
    remove_with-HasOriginal o n (some b) (inr (none_yet, has)) = cc

    remove-HasOriginal :
        (o : D) (n : AuditState D) → HasOriginal o n → HasOriginal o (remove_auditd_config n)
    unfolding remove_auditd_config
    remove-HasOriginal o n (inl held) = remove_with-HasOriginal o n n.backup (inl held)
    remove-HasOriginal o n (inr (none_yet, there)) =
        remove_with-HasOriginal o n n.backup (inr (none_yet, inr (none_yet, there)))

    configure_auditd_with-HasOriginal :
        (o : D) (osc : Option D) (n : AuditState D)
        → HasOriginal o n
        → HasOriginal o (configure_auditd_with contents load osc n).1
    configure_auditd_with-HasOriginal o none n has = remove-HasOriginal o n has
    configure_auditd_with-HasOriginal o (some osc) n has =
        if_cases (λ (m : Effect ℕ (AuditState D) (Unit {0})). HasOriginal o (m n).1)
          (contents.same osc contents.no_files) _ _ (λ _. remove-HasOriginal o n has)
          (λ _. install_rules-HasOriginal o osc n has)

    configure_rsyslog-audit :
        (n : Node D) → (configure_rsyslog_if_installed contents load n).1.audit ≡ n.audit
    unfolding configure_rsyslog_if_installed
    configure_rsyslog-audit n =
        if_cases (λ (r : Outcome ℕ (Unit {0}) × Node D). r.1.audit ≡ n.audit)
          n.relp.rsyslog.installed _ _ (λ _. refl) (λ _. refl)

    configure_auditd-HasOriginal :
        (o : D) (n : Node D)
        → HasOriginal o n.audit
        → HasOriginal o (configure_auditd_if_installed contents load n).1.audit
    unfolding configure_auditd_if_installed configure_auditd
    configure_auditd-HasOriginal o n has =
        if_cases (λ (r : Outcome ℕ (Unit {0}) × Node D). HasOriginal o r.1.audit)
          n.audit.auditd.installed _ _
          (λ _. configure_auditd_with-HasOriginal o n.audit.osc_rules n.audit has) (λ _. has)

    -- A part of the script that ends it, or is followed by another.
    pub proceed-audit :
        (o : Outcome ℕ (Unit {0})) (n : Node D)
        → (proceed (λ _. configure_rsyslog_if_installed contents load) o n).1.audit ≡ n.audit
    proceed-audit (ok tt) n = configure_rsyslog-audit n
    proceed-audit (err e) n = refl
    proceed-audit panic n = refl

    configure-HasOriginal :
        (o : D) (n : Node D)
        → HasOriginal o n.audit
        → HasOriginal o (configure contents load n).1.audit
    unfolding configure
    configure-HasOriginal o n has =
        let m = configure_auditd_if_installed contents load n in
        rw (proceed-audit m.0 m.1) (configure_auditd-HasOriginal o n has)

  -- What happens to a node: the script runs, with any result of augenrules; or something else changes
  -- anything but the rules and their backup, such as new files from the OSC, or a service that stops.
  pub data Step (contents : Contents D) (s : Node D) (t : Node D) : Type 0 where
    configures : (load : D → Load) → t ≡ (configure contents load s).1 → Step contents s t
    changes : t.audit.rules ≡ s.audit.rules → t.audit.backup ≡ s.audit.backup → Step contents s t

  pub data Reach (contents : Contents D) (s : Node D) : Node D → Type 0 where
    here : Reach contents s s
    next : {t u : Node D} → Reach contents s t → Step contents t u → Reach contents s u

  module _ (contents : Contents D) where
    Step-HasOriginal :
        (o : D) (s t : Node D) → Step contents s t → HasOriginal o s.audit → HasOriginal o t.audit
    Step-HasOriginal o s t (configures load e) has =
        rw e (configure-HasOriginal contents load o s has)
    Step-HasOriginal o s t (changes rules backup) (inl held) = inl (backup ∙ held)
    Step-HasOriginal o s t (changes rules backup) (inr (none_yet, there)) =
        inr (backup ∙ none_yet, rules ∙ there)

    pub Reach-HasOriginal :
        (o : D) {s t : Node D} → Reach contents s t → HasOriginal o s.audit → HasOriginal o t.audit
    Reach-HasOriginal o here has = has
    Reach-HasOriginal o (next r st) has = Step-HasOriginal o _ _ st (Reach-HasOriginal o r has)
