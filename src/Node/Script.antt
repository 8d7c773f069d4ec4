-- ===== src/Node/Script.antt =====
-- configure-rsyslog.tpl.sh as a whole.
use gardener_extension_shoot.Common.{ℕ, if◌then◌else◌}
use gardener_extension_shoot.Common.Outcome.{ok}
use gardener_extension_shoot.Common.Effect.{Effect, ◌>>◌}
use gardener_extension_shoot.Node.{Contents, Load, AuditState, RsyslogState, Node}
use gardener_extension_shoot.Node.Audit.{configure_auditd}
use gardener_extension_shoot.Node.Rsyslog.{configure_rsyslog}

module _ {D : Type 0} where
  -- a part of the script, on its part of the node
  abbrev pub on_audit : Effect ℕ (AuditState D) (Unit {0}) → Effect ℕ (Node D) (Unit {0})
  on_audit m n = let r = m n.audit in (r.0, record n { audit = r.1 })

  abbrev pub on_rsyslog : Effect ℕ (RsyslogState D) (Unit {0}) → Effect ℕ (Node D) (Unit {0})
  on_rsyslog m n = let r = m n.relp in (r.0, record n { relp = r.1 })

  module _ (contents : Contents D) (load : D → Load) where
    unfoldable pub configure_auditd_if_installed : Effect ℕ (Node D) (Unit {0})
    unfolding configure_auditd
    configure_auditd_if_installed n =
        if n.audit.auditd.installed then on_audit (configure_auditd contents load) n else (ok tt, n)

    unfoldable pub configure_rsyslog_if_installed : Effect ℕ (Node D) (Unit {0})
    unfolding configure_rsyslog
    configure_rsyslog_if_installed n =
        if n.relp.rsyslog.installed then on_rsyslog (configure_rsyslog contents) n else (ok tt, n)

    unfoldable pub configure : Effect ℕ (Node D) (Unit {0})
    unfolding configure_auditd_if_installed configure_rsyslog_if_installed
    configure = do configure_auditd_if_installed; configure_rsyslog_if_installed
