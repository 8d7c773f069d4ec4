-- ===== src/Node/Cleaner.antt =====
-- The script of computeCommand in rsyslog_relp_config_cleaner.go, which clears a node. It runs
-- without `errexit`.
use mathlib.Core.Option
use gardener_extension_shoot.Common.{
  ℕ, List, [], ◌∷◌, ◌++◌, Option, none, some, true, false, if◌then◌else◌,
}
use gardener_extension_shoot.Node.{
  systemctl, load_rules, AuditState, RsyslogState, Node, started, set_active,
}

module _ {D : Type 0} where
  abbrev pub clear_plugins : AuditState D → AuditState D
  clear_plugins n = record n {
    syslog_plugin = Option.map (set_active "no") n.syslog_plugin;
    audisp_plugin = Option.map (set_active "no") n.audisp_plugin;
  }

  unfoldable pub start_audit_socket : AuditState D → AuditState D
  start_audit_socket n =
      if n.audit_socket.installed
      then record n {
        audit_socket = record { installed = true; enabled = true; active = true };
        commands =
            n.commands
            ++ (systemctl "enable" "systemd-journald-audit.socket"
                ∷ systemctl "start" "systemd-journald-audit.socket"
                ∷ systemctl "restart" "systemd-journald"
                ∷ []);
      }
      else n

  unfoldable pub reload_auditd : AuditState D → AuditState D
  reload_auditd n =
      if n.auditd.installed
      then record n {
        auditd = started n.auditd;
        commands = n.commands ++ (load_rules ∷ systemctl "restart" "auditd" ∷ []);
      }
      else n

  -- the backup is moved to its place
  abbrev pub restore_rules : AuditState D → Option D → AuditState D
  restore_rules n none = n
  restore_rules n (some original) =
      reload_auditd (record n { rules = some original; backup = none })

  unfoldable pub clean_audit : AuditState D → AuditState D
  unfolding start_audit_socket reload_auditd
  clean_audit n = let m = start_audit_socket (clear_plugins n) in restore_rules m m.backup

  unfoldable pub restart_rsyslog : RsyslogState D → RsyslogState D
  restart_rsyslog n =
      if n.rsyslog.installed
      then record n {
        rsyslog = started n.rsyslog;
        commands = n.commands ++ (systemctl "restart" "rsyslog" ∷ []);
      }
      else n

  abbrev pub remove_config : RsyslogState D → Option (List ℕ) → RsyslogState D
  remove_config n none = n
  remove_config n (some config) = restart_rsyslog (record n { config = none })

  unfoldable pub clean_rsyslog : RsyslogState D → RsyslogState D
  unfolding restart_rsyslog
  clean_rsyslog n = record (remove_config n n.config) {
    tls = none;
    osc_config = none;
    osc_tls = none;
  }

  unfoldable pub clean : Node D → Node D
  unfolding clean_audit clean_rsyslog
  clean n = record {
    audit = record (clean_audit n.audit) { osc_rules = none };
    relp = clean_rsyslog (record n.relp { spool_dir = false });
    configurator = false;
  }
