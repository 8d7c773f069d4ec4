-- ===== src/Node/Original/Absent.antt =====
-- A node without audit rules of its own.
use gardener_extension_shoot.Common.{
  ℕ, Option, none, some, Bool, true, false, if_cases, if_true, if◌then◌else◌, ◌≡◌, refl, sym, ap,
  subst, arith,
}
use gardener_extension_shoot.Common.Outcome.{Outcome, ok}
use gardener_extension_shoot.Common.Effect.{proceed, ◌>>=◌, modify}
use gardener_extension_shoot.Common.Effect.Laws.{Keeps}
use gardener_extension_shoot.Node.{Contents, Load, AuditState, Node}
use gardener_extension_shoot.Node.Audit.{
  remove_auditd_config, back_up, rules_or_new, replace_rules, load_and_report, enable_plugin,
  start_auditd, stop_audit_socket, install_rules, configure_auditd_with, configure_auditd,
}
use gardener_extension_shoot.Node.Parts.{FollowedKeep, followed, followed-Keeps}
use gardener_extension_shoot.Node.Script.{on_audit, configure_auditd_if_installed, configure}
use gardener_extension_shoot.Node.Cleaner.{clean}
use gardener_extension_shoot.Node.Original.Kept.{proceed-audit, Reach}
use gardener_extension_shoot.Node.Original.{clean-restores}

module _ {D : Type 0} (contents : Contents D) (load : D → Load) (osc : D) where
  -- The rules of the OSC are there, and nothing is backed up.
  abbrev HasOnly : AuditState D → Type 0
  HasOnly n = (n.rules ≡ some osc) × (n.backup ≡ none)

  abbrev StillOnly : AuditState D → AuditState D → Type 0
  StillOnly s t = HasOnly s → HasOnly t

  load_and_report-Keeps_only :
      (changed : Bool) → Keeps StillOnly (load_and_report contents load changed)
  unfolding load_and_report
  load_and_report-Keeps_only changed n only = ground arith

  enable_plugin-Keeps_only : Keeps StillOnly enable_plugin
  unfolding enable_plugin
  enable_plugin-Keeps_only n only = ground arith

  start_auditd-Keeps_only : (restart : Bool) → Keeps StillOnly (start_auditd restart)
  unfolding start_auditd
  start_auditd-Keeps_only restart n only = ground arith

  stop_audit_socket-Keeps_only : Keeps StillOnly stop_audit_socket
  unfolding stop_audit_socket
  stop_audit_socket-Keeps_only n only = ground arith

  follow : FollowedKeep contents load StillOnly
  follow = record {
    order = record { same = λ s only. only; after = λ s t u h k only. k (h only) };
    reports = load_and_report-Keeps_only;
    enables = enable_plugin-Keeps_only;
    starts = start_auditd-Keeps_only;
    stops = stop_audit_socket-Keeps_only;
  }

  replaced-HasOnly :
      (n : AuditState D)
      → n.backup ≡ none
      → HasOnly ((replace_rules contents osc >>= followed contents load) n).1
  unfolding replace_rules
  replaced-HasOnly n none_yet =
      if_cases
        (λ (r : Outcome ℕ Bool × AuditState D).
          HasOnly (proceed (followed contents load) r.0 r.1).1)
        (contents.same osc (rules_or_new contents n.rules)) _ _
        (λ same.
          followed-Keeps contents load StillOnly follow false
            (record n { rules = some (rules_or_new contents n.rules) })
            (ap some (sym ((contents.same_iff osc _).0 same)), none_yet))
        (λ other.
          followed-Keeps contents load StillOnly follow true (record n { rules = some osc })
            (refl, none_yet))

  back_up-eq-none :
      (n : AuditState D) (backup rules : Option D)
      → n.backup ≡ none
      → backup ≡ none
      → rules ≡ none
      → (back_up n backup rules).backup ≡ none
  back_up-eq-none n none none h _ _ = h
  back_up-eq-none n none (some r) h _ absent = cc
  back_up-eq-none n (some b) rules h none_yet _ = cc

  install_rules-HasOnly :
      (n : AuditState D)
      → n.rules ≡ none
      → n.backup ≡ none
      → HasOnly (install_rules contents load osc n).1
  unfolding install_rules
  install_rules-HasOnly n absent none_yet =
      replaced-HasOnly (back_up n n.backup n.rules)
        (back_up-eq-none n n.backup n.rules none_yet none_yet absent)

  module _ (not_empty : contents.same osc contents.no_files ≡ false) where
    configure_auditd-HasOnly :
        (n : AuditState D)
        → n.osc_rules ≡ some osc
        → n.rules ≡ none
        → n.backup ≡ none
        → HasOnly (configure_auditd contents load n).1
    unfolding configure_auditd
    configure_auditd-HasOnly n asked absent none_yet =
        subst (λ o. HasOnly (configure_auditd_with contents load o n).1) (sym asked)
          (subst
            (λ b.
              HasOnly
                ((if b then modify remove_auditd_config else install_rules contents load osc) n).1)
            (sym not_empty) (install_rules-HasOnly n absent none_yet))

    configure-HasOnly :
        (n : Node D)
        → n.audit.auditd.installed ≡ true
        → n.audit.osc_rules ≡ some osc
        → n.audit.rules ≡ none
        → n.audit.backup ≡ none
        → HasOnly (configure contents load n).1.audit
    unfolding configure configure_auditd_if_installed
    configure-HasOnly n on asked absent none_yet =
        let m = configure_auditd_if_installed contents load n in
        rw (proceed-audit contents load m.0 m.1) (
          subst (λ (r : Outcome ℕ (Unit {0}) × Node D). HasOnly r.1.audit)
            (sym (
              if_true n.audit.auditd.installed (on_audit (configure_auditd contents load) n)
                (ok tt, n) on))
            (configure_auditd-HasOnly n.audit asked absent none_yet))

    -- On a node with auditd and without a directory of audit rules of its own, the first rules from the
    -- OSC that the script puts there are what the script of the cleaner leaves behind, whatever happens
    -- to the node between, but for other changes of the rules and their backup.
    pub clean-leaves_rules :
        (n : Node D) {t : Node D}
        → n.audit.auditd.installed ≡ true
        → n.audit.osc_rules ≡ some osc
        → n.audit.rules ≡ none
        → n.audit.backup ≡ none
        → Reach contents (configure contents load n).1 t
        → (clean t).audit.rules ≡ some osc
    clean-leaves_rules n on asked absent none_yet reached =
        let (there, none_then) = configure-HasOnly n on asked absent none_yet in
        (clean-restores contents osc there none_then reached).0
