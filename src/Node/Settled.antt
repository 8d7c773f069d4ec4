-- ===== src/Node/Settled.antt =====
-- What a node looks like when the configuration script has nothing left to do.
pub mod Audit
pub mod Rsyslog
pub mod Script
use gardener_extension_shoot.Common.{
  String, List, Option, none, some, Bool, true, false, not, ◌&&◌, if◌then◌else◌, ◌≡◌, ◌≢◌,
}
use gardener_extension_shoot.Node.{Contents, Service, Plugin, AuditState, RsyslogState, Node}
use gardener_extension_shoot.Node.Audit.{is_off}

module _ {D : Type 0} (contents : Contents D) where
  -- what the directory of the OSC asks for: nothing, if it is not there or empty
  abbrev pub wanted : Option D → Option D
  wanted none = none
  wanted (some osc) = if contents.same osc contents.no_files then none else some osc

-- The plugin that the script looks at, if there is one, is not off.
abbrev pub plugin_is_on : Option Plugin → Option Plugin → Bool
plugin_is_on (some p) syslog = not (is_off p.active)
plugin_is_on none (some p) = not (is_off p.active)
plugin_is_on none none = true

-- The socket, if there is one, is not in use.
abbrev pub socket_is_off : Service → Bool
socket_is_off s = if s.installed then not s.enabled && not s.active else true

module _ {D : Type 0} where
  -- The rules of the OSC are in force.
  pub record HasRules (osc : D) (n : AuditState D) : Type 0 where
    pub rules : n.rules ≡ some osc
    pub backed_up : n.backup ≢ none
    pub reported : n.metric ≢ none
    pub plugin : plugin_is_on n.audisp_plugin n.syslog_plugin ≡ true
    pub active : n.auditd.active ≡ true
    pub socket : socket_is_off n.audit_socket ≡ true

  -- By what the OSC asks for: its rules are in force, or nothing is left of earlier ones.
  abbrev pub AuditSettled : Option D → AuditState D → Type 0
  AuditSettled none n = n.backup ≡ none
  AuditSettled (some osc) n = HasRules osc n

  pub record RsyslogSettled (contents : Contents D) (n : RsyslogState D) : Type 0 where
    pub enabled : n.rsyslog.enabled ≡ true
    pub spool_dir : n.spool_dir ≡ true
    pub config : n.config ≡ n.osc_config
    pub delivered : n.osc_config ≢ none
    pub tls : n.tls ≡ wanted contents n.osc_tls
    pub active : n.rsyslog.active ≡ true

  -- Each of the two services that is installed is as the OSC asks for.
  pub record IsSettled (contents : Contents D) (n : Node D) : Type 0 where
    pub audit :
        n.audit.auditd.installed ≡ true → AuditSettled (wanted contents n.audit.osc_rules) n.audit
    pub relp : n.relp.rsyslog.installed ≡ true → RsyslogSettled contents n.relp
