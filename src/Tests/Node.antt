-- ===== src/Tests/Node.antt =====
-- The scripts on nodes whose directories hold a number, 0 for none.
use gardener_extension_shoot.Common.{
  ℕ, [], ◌∷◌, none, some, true, false, if◌then◌else◌, ◌==◌, ◌≡◌, ◌↔◌, inl, refl, arith,
}
use gardener_extension_shoot.Common.Outcome.{ok, err}
use gardener_extension_shoot.Node.{Contents, Service, Load, Node, systemctl, load_rules}
use gardener_extension_shoot.Node.Script.{configure}
use gardener_extension_shoot.Node.Cleaner.{clean}
use gardener_extension_shoot.Node.Original.Kept.{Reach, here, next, configures}
use gardener_extension_shoot.Node.Original.{IsCleared, clean-restores}
use gardener_extension_shoot.Node.Original.Absent.{clean-leaves_rules}
use gardener_extension_shoot.Node.Settled.{IsSettled}
use gardener_extension_shoot.Node.Failure.Runs.{runs, runs-metric, runs-eq-err}
use gardener_extension_shoot.Node.Settled.Script.{SameOsc, configure-settles}

pub same_iff : (a b : ℕ) → ((a == b) ≡ true) ↔ (a ≡ b)
same_iff a b = (λ h. ground arith, λ h. ground arith)

abbrev pub numbers : Contents ℕ
numbers = record { no_files = 0; same = ◌==◌; same_iff = same_iff }

-- augenrules loads all rules but 9
abbrev pub load : ℕ → Load
load d = record { status = if d == 9 then 1 else 0; complains = false }

abbrev pub running : Service
running = record { installed = true; enabled = true; active = true }

abbrev pub stopped : Service
stopped = record { installed = true; enabled = true; active = false }

-- a node with the rules 1, and with rules and a configuration from the OSC that it has not read
abbrev pub asked_for : ℕ → Node ℕ
asked_for rules = record {
  audit = record {
    osc_rules = some rules;
    rules = some 1;
    backup = none;
    syslog_plugin = none;
    audisp_plugin = some (record { active = some "no" });
    collector_dir = false;
    metric = none;
    auditd = running;
    audit_socket = running;
    commands = [];
  };
  relp = record {
    osc_config = some (7 ∷ []);
    config = none;
    osc_tls = some 0;
    tls = some 3;
    spool_dir = false;
    rsyslog = stopped;
    commands = [];
  };
  configurator = true;
}

-- the same node behind the script
abbrev configured : Node ℕ
configured = record {
  audit = record {
    osc_rules = some 2;
    rules = some 2;
    backup = some 1;
    syslog_plugin = none;
    audisp_plugin = some (record { active = some "yes" });
    collector_dir = true;
    metric = some true;
    auditd = running;
    audit_socket = record { installed = true; enabled = false; active = false };
    commands =
        load_rules
        ∷ systemctl "restart" "auditd"
        ∷ systemctl "disable" "systemd-journald-audit.socket"
        ∷ systemctl "stop" "systemd-journald-audit.socket"
        ∷ systemctl "restart" "systemd-journald"
        ∷ [];
  };
  relp = record {
    osc_config = some (7 ∷ []);
    config = some (7 ∷ []);
    osc_tls = some 0;
    tls = none;
    spool_dir = true;
    rsyslog = running;
    commands = systemctl "start" "rsyslog" ∷ [];
  };
  configurator = true;
}

configure_example : configure numbers load (asked_for 2) ≡ (ok tt, configured)
unfolding configure
configure_example = refl

configure_failure_example : (configure numbers load (asked_for 9)).0 ≡ err 1
unfolding configure
configure_failure_example = refl

clean_example :
    ((clean configured).audit.rules ≡ some 1)
    × ((clean configured).audit.backup ≡ none)
    × ((clean configured).relp.config ≡ none)
unfolding clean
clean_example = (refl, refl, refl)

once : Reach numbers (asked_for 2) (configure numbers load (asked_for 2)).1
once = next here (configures load refl)

clean-restores_example :
    ((clean (configure numbers load (asked_for 2)).1).audit.rules ≡ some 1)
    × ((clean (configure numbers load (asked_for 2)).1).audit.backup ≡ none)
    × ((clean (configure numbers load (asked_for 2)).1).audit.osc_rules ≡ none)
    × IsCleared (clean (configure numbers load (asked_for 2)).1).relp
    × ((clean (configure numbers load (asked_for 2)).1).configurator ≡ false)
    × ((clean (configure numbers load (asked_for 2)).1).audit.metric
        ≡ (configure numbers load (asked_for 2)).1.audit.metric)
clean-restores_example = clean-restores numbers 1 refl refl once

configure-settles_example :
    (t : Node ℕ) × (configure numbers load (asked_for 2) ≡ (ok tt, t))
    × IsSettled numbers t
    × SameOsc (asked_for 2) t
    × (configure numbers load t ≡ (ok tt, t))
configure-settles_example =
    configure-settles numbers load (asked_for 2) (inl (λ missing. cc)) refl (λ missing. cc)

runs-eq-err_example :
    ((configure numbers load (runs numbers load 3 (asked_for 9))).0 ≡ err 1)
    × ((runs numbers load 3 (asked_for 9)).audit.metric ≡ none)
    × ((runs numbers load 3 (asked_for 9)).relp ≡ (asked_for 9).relp)
runs-eq-err_example = runs-eq-err numbers load 9 (λ loads. cc) refl 3 (asked_for 9) refl refl refl

-- a node on which other rules were loaded
abbrev reported : Node ℕ
reported = record configured { audit = record configured.audit { osc_rules = some 9 } }

runs-metric_example : (runs numbers load 2 reported).audit.metric ≡ some true
runs-metric_example = runs-metric numbers load 9 (λ loads. cc) refl 2 reported refl refl

-- the same node without audit rules of its own
abbrev without_rules : Node ℕ
without_rules = record (asked_for 2) { audit = record (asked_for 2).audit { rules = none } }

clean-leaves_rules_example : (clean (configure numbers load without_rules).1).audit.rules ≡ some 2
clean-leaves_rules_example =
    clean-leaves_rules numbers load 2 refl without_rules refl refl refl refl here
