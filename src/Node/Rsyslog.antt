-- ===== src/Node/Rsyslog.antt =====
-- configure_rsyslog of configure-rsyslog.tpl.sh.
use gardener_extension_shoot.Common.{
  ℕ, List, [], ◌∷◌, ◌++◌, Option, none, some, Bool, true, false, not, ◌&&◌, ◌||◌, ◌==◌,
  if◌then◌else◌,
}
use gardener_extension_shoot.Common.Outcome.{ok, err}
use gardener_extension_shoot.Common.Effect.{Effect, ◌>>=◌, ◌>>◌, modify}
use gardener_extension_shoot.Node.{Contents, systemctl, RsyslogState, started}

-- `diff -rq` of two files
abbrev pub same_text : List ℕ → List ℕ → Bool
same_text [] [] = true
same_text (c ∷ s) (d ∷ t) = c == d && same_text s t
same_text _ _ = false

-- `[[ ! -f … ]] || ! diff …`
abbrev pub config_differs : List ℕ → Option (List ℕ) → Bool
config_differs osc none = true
config_differs osc (some config) = not (same_text osc config)

module _ {D : Type 0} where
  unfoldable pub enable_rsyslog : RsyslogState D → RsyslogState D
  enable_rsyslog n = if n.rsyslog.enabled then n else record n {
    rsyslog = record n.rsyslog { enabled = true };
    commands = n.commands ++ (systemctl "enable" "rsyslog" ∷ []);
  }

  -- cp, which fails without the file of the OSC
  abbrev pub copy_config_from : Option (List ℕ) → Effect ℕ (RsyslogState D) Bool
  copy_config_from none n = (err 1, n)
  copy_config_from (some osc) n =
      if config_differs osc n.config
      then (ok true, record n { config = some osc })
      else (ok false, n)

  unfoldable pub copy_config : Effect ℕ (RsyslogState D) Bool
  copy_config n = copy_config_from n.osc_config n

  unfoldable pub start_rsyslog : Bool → Effect ℕ (RsyslogState D) (Unit {0})
  start_rsyslog restart n =
      if not n.rsyslog.active
      then (
        ok tt,
        record n {
          rsyslog = started n.rsyslog;
          commands = n.commands ++ (systemctl "start" "rsyslog" ∷ []);
        },
      )
      else if restart
      then (
        ok tt,
        record n {
          rsyslog = started n.rsyslog;
          commands = n.commands ++ (systemctl "restart" "rsyslog" ∷ []);
        },
      )
      else (ok tt, n)

  module _ (contents : Contents D) where
    -- mkdir -p, if it is not there
    abbrev pub tls_or_new : Option D → D
    tls_or_new none = contents.no_files
    tls_or_new (some d) = d

    abbrev pub copy_tls_from : Option D → Effect ℕ (RsyslogState D) Bool
    copy_tls_from none n = (ok false, record n { tls = none })
    copy_tls_from (some osc) n =
        if contents.same osc contents.no_files
        then (ok false, record n { tls = none })
        else if contents.same osc (tls_or_new n.tls)
        then (ok false, record n { tls = some (tls_or_new n.tls) })
        else (ok true, record n { tls = some osc })

    unfoldable pub copy_tls : Effect ℕ (RsyslogState D) Bool
    copy_tls n = copy_tls_from n.osc_tls n

    unfoldable pub configure_rsyslog : Effect ℕ (RsyslogState D) (Unit {0})
    unfolding enable_rsyslog copy_config copy_tls start_rsyslog
    configure_rsyslog = do
      modify enable_rsyslog
      modify (λ n. record n { spool_dir = true })
      copied ← copy_config
      replaced ← copy_tls
      start_rsyslog (copied || replaced)
