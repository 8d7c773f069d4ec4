-- ===== src/Node.antt =====
-- resources/templates/scripts/configure-rsyslog.tpl.sh: what the webhook's script does on a node, and
-- what the script of the configuration cleaner undoes. The state is what the scripts read and write:
-- directories, files and the units of systemd.
pub mod Audit
pub mod Rsyslog
pub mod Script
pub mod Cleaner
pub mod Parts
pub mod Original
pub mod Settled
pub mod Failure
pub mod Delivered
use gardener_extension_shoot.Common.{
  String, ℕ, List, [], ◌∷◌, ◌++◌, Option, none, some, Bool, true, false, ◌≡◌, ◌↔◌,
}

-- What a directory holds: a type of contents with the empty one, and `diff -rq`.
pub record Contents (D : Type 0) : Type 0 where
  pub no_files : D
  pub same : D → D → Bool
  pub same_iff : (a b : D) → (same a b ≡ true) ↔ (a ≡ b)

-- a unit of systemd
pub record Service : Type 0 where
  pub installed : Bool
  pub enabled : Bool
  pub active : Bool

-- a plugin's file, with the value of its `active` line
pub record Plugin : Type 0 where
  pub active : Option String

-- a call of systemctl on a unit, or of augenrules --load
pub data Command : Type 0 where
  systemctl : String → String → Command
  load_rules : Command

-- how `augenrules --load` ends: its status, and whether it writes to stderr
pub record Load : Type 0 where
  pub status : ℕ
  pub complains : Bool

-- What the scripts see of the audit rules; a directory that is not there is `none`.
pub record AuditState (D : Type 0) : Type 0 where
  -- pathAuditRulesFromOSCDir
  pub osc_rules : Option D
  -- pathAuditRulesDir and pathAuditRulesBackupDir
  pub rules : Option D
  pub backup : Option D
  -- pathSyslogAuditPlugin and audispSyslogPluginPath
  pub syslog_plugin : Option Plugin
  pub audisp_plugin : Option Plugin
  pub collector_dir : Bool
  -- rsyslog_auditd.prom
  pub metric : Option Bool
  pub auditd : Service
  pub audit_socket : Service
  pub commands : List Command

-- What they see of rsyslog; the contents of a file are a text.
pub record RsyslogState (D : Type 0) : Type 0 where
  -- pathRsyslogAuditConfFromOSC and pathRsyslogAuditConf
  pub osc_config : Option (List ℕ)
  pub config : Option (List ℕ)
  -- pathRsyslogTLSFromOSCDir and pathRsyslogTLSDir
  pub osc_tls : Option D
  pub tls : Option D
  pub spool_dir : Bool
  pub rsyslog : Service
  pub commands : List Command

pub record Node (D : Type 0) : Type 0 where
  pub audit : AuditState D
  pub relp : RsyslogState D
  -- whether the unit file of rsyslog-configurator.service is there
  pub configurator : Bool

abbrev pub is_none : {A : Type 0} → Option A → Bool
is_none none = true
is_none (some a) = false

abbrev pub started : Service → Service
started s = record s { active = true }

-- the plugin with another value, if it has an `active` line
abbrev pub set_active : String → Plugin → Plugin
set_active value (p) = record p { active = elim p.active [ none ↦ none | some v ↦ some value ] }
