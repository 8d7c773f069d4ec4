-- ===== src/Node/Original.antt =====
-- What the script of the cleaner leaves on a node that had audit rules before the extension came.
pub mod Kept
pub mod Absent
use gardener_extension_shoot.Common.{
  Option, none, some, Bool, false, if_cases, inl, inr, ◌⊎◌, ◌≡◌, refl, ◌∙◌, arith,
}
use gardener_extension_shoot.Node.{Contents, AuditState, RsyslogState, Node}
use gardener_extension_shoot.Node.Cleaner.{
  clear_plugins, start_audit_socket, reload_auditd, restore_rules, clean_audit, clean_rsyslog,
  clean,
}
use gardener_extension_shoot.Node.Original.Kept.{HasOriginal, Reach, Reach-HasOriginal}

module _ {D : Type 0} where
  -- the directories of rules and of their backup
  abbrev Restored : D → AuditState D → Type 0
  Restored o n = (n.rules ≡ some o) × (n.backup ≡ none)

  restore_rules-Restored :
      (o : D) (n : AuditState D) (backup : Option D)
      → (backup ≡ some o) ⊎ ((backup ≡ none) × Restored o n)
      → Restored o (restore_rules n backup)
  unfolding reload_auditd
  restore_rules-Restored o n none (inl held) = cc
  restore_rules-Restored o n none (inr (none_yet, restored)) = restored
  restore_rules-Restored o n (some b) (inl held) =
      if_cases (Restored o) n.auditd.installed _ _ (λ _. (held, refl)) (λ _. (held, refl))
  restore_rules-Restored o n (some b) (inr (none_yet, restored)) = cc

  start_audit_socket-Keeps :
      (n : AuditState D)
      → ((start_audit_socket n).rules ≡ n.rules) × ((start_audit_socket n).backup ≡ n.backup)
  unfolding start_audit_socket
  start_audit_socket-Keeps n =
      if_cases (λ (t : AuditState D). (t.rules ≡ n.rules) × (t.backup ≡ n.backup))
        n.audit_socket.installed _ _ (λ _. (refl, refl)) (λ _. (refl, refl))

  clean_audit-Restored : (o : D) (n : AuditState D) → HasOriginal o n → Restored o (clean_audit n)
  unfolding clean_audit
  clean_audit-Restored o n has =
      let m = start_audit_socket (clear_plugins n) in
      let same = start_audit_socket-Keeps (clear_plugins n) in
      restore_rules-Restored o m m.backup (elim has [
        | inl held ↦ inl (same.1 ∙ held)
        | inr (none_yet, there) ↦ inr (same.1 ∙ none_yet, (same.0 ∙ there, same.1 ∙ none_yet))
      ])

  -- The files of rsyslog that are read here, the spool directory and the files of the OSC are gone.
  pub record IsCleared (n : RsyslogState D) : Type 0 where
    pub no_config : n.config ≡ none
    pub no_tls : n.tls ≡ none
    pub no_spool_dir : n.spool_dir ≡ false
    pub no_osc_config : n.osc_config ≡ none
    pub no_osc_tls : n.osc_tls ≡ none

  clean_rsyslog-IsCleared :
      (n : RsyslogState D) → IsCleared (clean_rsyslog (record n { spool_dir = false }))
  unfolding clean_rsyslog
  clean_rsyslog-IsCleared n = ground arith

  start_audit_socket-metric : (n : AuditState D) → (start_audit_socket n).metric ≡ n.metric
  unfolding start_audit_socket
  start_audit_socket-metric n = ground arith

  restore_rules-metric :
      (n : AuditState D) (backup : Option D) → (restore_rules n backup).metric ≡ n.metric
  unfolding reload_auditd
  restore_rules-metric n none = refl
  restore_rules-metric n (some b) = ground arith

  -- The cleaner's script has no command for the metric.
  clean_audit-metric : (n : AuditState D) → (clean_audit n).metric ≡ n.metric
  unfolding clean_audit
  clean_audit-metric n =
      let m = start_audit_socket (clear_plugins n) in
      restore_rules-metric m m.backup ∙ start_audit_socket-metric (clear_plugins n)

  -- Let a node have audit rules of its own and no backup of them, and then let anything happen that
  -- changes the rules and their backup by runs of the configuration script only: these runs, with any
  -- results, files of the OSC that come and go, services that stop. Then the script of the cleaner puts
  -- exactly these rules back. It leaves no backup, no rsyslog configuration, no files for TLS, no
  -- spool directory, no unit of the configurator and no files of the OSC below its directory. The
  -- metric of augenrules it leaves as it is.
  pub clean-restores :
      (contents : Contents D) (o : D) {s t : Node D}
      → s.audit.rules ≡ some o
      → s.audit.backup ≡ none
      → Reach contents s t
      → ((clean t).audit.rules ≡ some o)
        × ((clean t).audit.backup ≡ none)
        × ((clean t).audit.osc_rules ≡ none)
        × IsCleared (clean t).relp
        × ((clean t).configurator ≡ false)
        × ((clean t).audit.metric ≡ t.audit.metric)
  unfolding clean
  clean-restores contents o {s} {t} there none_yet reached =
      let restored =
        clean_audit-Restored o t.audit
          (Reach-HasOriginal contents o reached (inr (none_yet, there))) in
      (
        restored.0,
        restored.1,
        refl,
        clean_rsyslog-IsCleared t.relp,
        refl,
        clean_audit-metric t.audit,
      )
