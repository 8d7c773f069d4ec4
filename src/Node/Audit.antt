-- ===== src/Node/Audit.antt =====
-- configure_auditd and remove_auditd_config of configure-rsyslog.tpl.sh. With `errexit` a command that
-- fails ends the script; of the commands only augenrules --load is taken to fail.
use mathlib.Core.Option
use gardener_extension_shoot.Common.{
  String, ℕ, List, [], ◌∷◌, ◌++◌, Option, none, some, Bool, true, false, not, ◌||◌, ◌==◌, str_eq,
  if◌then◌else◌,
}
use gardener_extension_shoot.Common.Outcome.{Outcome, ok, err}
use gardener_extension_shoot.Common.Effect.{Effect, ◌>>=◌, ◌>>◌, modify}
use gardener_extension_shoot.Node.{
  Contents, Service, Plugin, Command, systemctl, load_rules, Load, AuditState, is_none, started,
  set_active,
}

-- whether there is an `active` line that does not say yes
abbrev pub is_off : Option String → Bool
is_off none = false
is_off (some value) = not (str_eq value "yes")

abbrev pub enable_if_off : Plugin → Plugin
enable_if_off p = if is_off p.active then set_active "yes" p else p

-- what is done with systemd-journald-audit.socket
abbrev pub commands_for_socket : Service → List Command
commands_for_socket s =
    (if s.enabled then systemctl "disable" "systemd-journald-audit.socket" ∷ [] else [])
    ++ (if s.active
        then systemctl "stop" "systemd-journald-audit.socket"
          ∷ systemctl "restart" "systemd-journald"
          ∷ []
        else [])

module _ {D : Type 0} where
  -- `augenrules --load || true; systemctl restart auditd`, and the metric that goes
  abbrev pub restored : AuditState D → D → AuditState D
  restored n original = record n {
    syslog_plugin = Option.map (set_active "no") n.syslog_plugin;
    audisp_plugin = Option.map (set_active "no") n.audisp_plugin;
    rules = some original;
    metric = none;
    backup = none;
    auditd = started n.auditd;
    commands = n.commands ++ (load_rules ∷ systemctl "restart" "auditd" ∷ []);
  }

  -- remove_auditd_config, by the backup
  abbrev pub remove_with : AuditState D → Option D → AuditState D
  remove_with n none = n
  remove_with n (some original) = restored n original

  unfoldable pub remove_auditd_config : AuditState D → AuditState D
  remove_auditd_config n = remove_with n n.backup

  -- the directory of rules is moved away, if nothing is backed up yet
  abbrev pub back_up : AuditState D → Option D → Option D → AuditState D
  back_up n none (some r) = record n { backup = some r; rules = none }
  back_up n none none = n
  back_up n (some b) r = n

  -- the plugin at path_syslog_audit_plugin
  abbrev pub enable_plugin_of :
      AuditState D → Option Plugin → Option Plugin → Outcome ℕ Bool × AuditState D
  enable_plugin_of n (some p) syslog =
      (ok (is_off p.active), record n { audisp_plugin = some (enable_if_off p) })
  enable_plugin_of n none (some p) =
      (ok (is_off p.active), record n { syslog_plugin = some (enable_if_off p) })
  enable_plugin_of n none none = (ok false, n)

  unfoldable pub enable_plugin : Effect ℕ (AuditState D) Bool
  enable_plugin n = enable_plugin_of n n.audisp_plugin n.syslog_plugin

  unfoldable pub start_auditd : Bool → Effect ℕ (AuditState D) (Unit {0})
  start_auditd restart n =
      if not n.auditd.active
      then (
        ok tt,
        record n {
          auditd = started n.auditd;
          commands = n.commands ++ (systemctl "start" "auditd" ∷ []);
        },
      )
      else if restart
      then (
        ok tt,
        record n {
          auditd = started n.auditd;
          commands = n.commands ++ (systemctl "restart" "auditd" ∷ []);
        },
      )
      else (ok tt, n)

  unfoldable pub stop_audit_socket : Effect ℕ (AuditState D) (Unit {0})
  stop_audit_socket n =
      if n.audit_socket.installed
      then (
        ok tt,
        record n {
          audit_socket = record { installed = true; enabled = false; active = false };
          commands = n.commands ++ commands_for_socket n.audit_socket;
        },
      )
      else (ok tt, n)

  -- `error=$(augenrules --load …)`, which ends the script if it fails, and the metric
  abbrev pub report : Load → Effect ℕ (AuditState D) (Unit {0})
  report result n =
      if result.status == 0
      then (ok tt, record n { metric = some (not result.complains) })
      else (err result.status, n)

  module _ (contents : Contents D) where
    -- mkdir -p, if it is not there
    abbrev pub rules_or_new : Option D → D
    rules_or_new none = contents.no_files
    rules_or_new (some r) = r

    -- with the directory: the rules are replaced, if they differ
    unfoldable pub replace_rules : D → Effect ℕ (AuditState D) Bool
    replace_rules osc n =
        if contents.same osc (rules_or_new n.rules)
        then (ok false, record n { rules = some (rules_or_new n.rules) })
        else (ok true, record n { rules = some osc })

    module _ (load : D → Load) where
      unfoldable pub load_and_report : Bool → Effect ℕ (AuditState D) (Unit {0})
      load_and_report changed n =
          if changed || is_none n.metric
          then report (load (rules_or_new n.rules))
              (record n { collector_dir = true; commands = n.commands ++ (load_rules ∷ []) })
          else (ok tt, n)

      -- configure_auditd, for rules in the directory of the OSC
      unfoldable pub install_rules : D → Effect ℕ (AuditState D) (Unit {0})
      unfolding replace_rules load_and_report enable_plugin start_auditd stop_audit_socket
      install_rules osc = do
        modify (λ n. back_up n n.backup n.rules)
        changed ← replace_rules osc
        load_and_report changed
        enabled ← enable_plugin
        start_auditd (changed || enabled)
        stop_audit_socket

      -- configure_auditd, by the directory of the OSC
      abbrev pub configure_auditd_with : Option D → Effect ℕ (AuditState D) (Unit {0})
      configure_auditd_with none = modify remove_auditd_config
      configure_auditd_with (some osc) =
          if contents.same osc contents.no_files
          then modify remove_auditd_config
          else install_rules osc

      unfoldable pub configure_auditd : Effect ℕ (AuditState D) (Unit {0})
      unfolding install_rules remove_auditd_config
      configure_auditd n = configure_auditd_with n.osc_rules n
