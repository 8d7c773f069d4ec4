-- ===== src/Node/Settled/Audit.antt =====
-- configure_auditd, by what the directory of the OSC asks for.
use gardener_extension_shoot.Common.{
  ℕ, Option, none, some, Bool, true, false, ◌||◌, if◌then◌else◌, if_cases, ◌⊎◌, ◌≡◌, ◌≢◌, refl, sym,
  ap, ◌∙◌, arith, append-nil,
}
use gardener_extension_shoot.Common.Outcome.{Outcome, ok}
use gardener_extension_shoot.Common.Effect.{modify}
use gardener_extension_shoot.Common.Effect.Laws.{
  Keeps, EndsWell, >>=-EndsWell, EndsWell-and, >>=-eq,
}
use gardener_extension_shoot.Node.{Contents, Load, AuditState}
use gardener_extension_shoot.Node.Audit.{
  remove_with, remove_auditd_config, back_up, rules_or_new, replace_rules, load_and_report,
  enable_plugin, start_auditd, stop_audit_socket, install_rules, configure_auditd_with,
  configure_auditd,
}
use gardener_extension_shoot.Node.Parts.{PartsKeep, installed, installed-Keeps}
use gardener_extension_shoot.Node.Settled.{
  wanted, plugin_is_on, socket_is_off, HasRules, AuditSettled,
}

module _ {D : Type 0} (contents : Contents D) (load : D → Load) (osc : D) where
  -- What the parts of install_rules add, one by one.
  abbrev Copied : AuditState D → Type 0
  Copied n = (n.rules ≡ some osc) × (n.backup ≢ none)

  abbrev Reported : AuditState D → Type 0
  Reported n = (n.rules ≡ some osc) × (n.backup ≢ none) × (n.metric ≢ none)

  abbrev Enabled : AuditState D → Type 0
  Enabled n =
      (n.rules ≡ some osc)
      × (n.backup ≢ none)
      × (n.metric ≢ none)
      × (plugin_is_on n.audisp_plugin n.syslog_plugin ≡ true)

  abbrev Started : AuditState D → Type 0
  Started n =
      (n.rules ≡ some osc)
      × (n.backup ≢ none)
      × (n.metric ≢ none)
      × (plugin_is_on n.audisp_plugin n.syslog_plugin ≡ true)
      × (n.auditd.active ≡ true)

  back_up-ne-none :
      (n : AuditState D)
      → (n.rules ≢ none) ⊎ (n.backup ≢ none)
      → (back_up n n.backup n.rules).backup ≢ none
  back_up-ne-none n owned = ground arith

  replace_rules-Copied :
      (n : AuditState D)
      → n.backup ≢ none
      → EndsWell Copied (replace_rules contents osc n).0 (replace_rules contents osc n).1
  unfolding replace_rules
  replace_rules-Copied n backed_up =
      if_cases (λ (r : Outcome ℕ Bool × AuditState D). EndsWell Copied r.0 r.1)
        (contents.same osc (rules_or_new contents n.rules)) _ _
        (λ same. (ap some (sym ((contents.same_iff osc _).0 same)), backed_up))
        (λ other. (refl, backed_up))

  load_and_report-Reported :
      (changed : Bool) (n : AuditState D)
      → (load osc).status ≡ 0
      → Copied n
      → EndsWell Reported
          (load_and_report contents load changed n).0
          (load_and_report contents load changed n).1
  unfolding load_and_report
  load_and_report-Reported changed n loads copied =
      ground (arith, ap load (ap (rules_or_new contents) copied.0))

  enable_plugin-Enabled :
      (n : AuditState D) → Reported n → EndsWell Enabled (enable_plugin n).0 (enable_plugin n).1
  unfolding enable_plugin
  enable_plugin-Enabled n h = ground arith

  start_auditd-Started :
      (restart : Bool) (n : AuditState D)
      → Enabled n
      → EndsWell Started (start_auditd restart n).0 (start_auditd restart n).1
  unfolding start_auditd
  start_auditd-Started restart n h = ground arith

  stop_audit_socket-HasRules :
      (n : AuditState D)
      → Started n
      → EndsWell (HasRules osc) (stop_audit_socket n).0 (stop_audit_socket n).1
  unfolding stop_audit_socket
  stop_audit_socket-HasRules n h = ground arith

  installed-HasRules :
      (n : AuditState D)
      → (load osc).status ≡ 0
      → n.backup ≢ none
      → EndsWell (HasRules osc) (installed contents load osc n).0 (installed contents load osc n).1
  installed-HasRules n loads backed_up =
      >>=-EndsWell Copied (HasRules osc) (replace_rules contents osc) _ n
        (replace_rules-Copied n backed_up)
        λ changed t copied.
          >>=-EndsWell Reported (HasRules osc) (load_and_report contents load changed) _ t
            (load_and_report-Reported changed t loads copied)
            λ _ u reported.
              >>=-EndsWell Enabled (HasRules osc) enable_plugin _ u
                (enable_plugin-Enabled u reported)
                λ enabled v on.
                  >>=-EndsWell Started (HasRules osc) (start_auditd (changed || enabled)) _ v
                    (start_auditd-Started (changed || enabled) v on)
                    λ _ w started. stop_audit_socket-HasRules w started

module _ {D : Type 0} where
  -- What the script is asked for does not change.
  abbrev pub SameAsked : AuditState D → AuditState D → Type 0
  SameAsked s t = (t.osc_rules ≡ s.osc_rules) × (t.auditd.installed ≡ s.auditd.installed)

  module _ (contents : Contents D) (load : D → Load) where
    replace_rules-Keeps_asked : (osc : D) → Keeps SameAsked (replace_rules contents osc)
    unfolding replace_rules
    replace_rules-Keeps_asked osc n = ground arith

    load_and_report-Keeps_asked :
        (changed : Bool) → Keeps SameAsked (load_and_report contents load changed)
    unfolding load_and_report
    load_and_report-Keeps_asked changed n = ground arith

    enable_plugin-Keeps_asked : Keeps SameAsked enable_plugin
    unfolding enable_plugin
    enable_plugin-Keeps_asked n = ground arith

    start_auditd-Keeps_asked : (restart : Bool) → Keeps SameAsked (start_auditd restart)
    unfolding start_auditd
    start_auditd-Keeps_asked restart n = ground arith

    stop_audit_socket-Keeps_asked : Keeps SameAsked stop_audit_socket
    unfolding stop_audit_socket
    stop_audit_socket-Keeps_asked n = ground arith

    parts : PartsKeep contents load SameAsked
    parts = record {
      follow = record {
        order = record { same = λ s. (refl, refl); after = λ s t u h k. (k.0 ∙ h.0, k.1 ∙ h.1) };
        reports = load_and_report-Keeps_asked;
        enables = enable_plugin-Keeps_asked;
        starts = start_auditd-Keeps_asked;
        stops = stop_audit_socket-Keeps_asked;
      };
      replaces = replace_rules-Keeps_asked;
    }

    back_up-asked :
        (n : AuditState D) (backup rules : Option D) → SameAsked n (back_up n backup rules)
    back_up-asked n backup rules = ground arith

    remove_with-asked : (n : AuditState D) (backup : Option D) → SameAsked n (remove_with n backup)
    remove_with-asked n backup = ground arith

    remove_with-backup :
        (n : AuditState D) (backup : Option D)
        → backup ≡ n.backup
        → (remove_with n backup).backup ≡ none
    remove_with-backup n none e = sym e
    remove_with-backup n (some b) e = refl

    -- The load of the rules that are asked for, if any, succeeds.
    abbrev pub Loads : Option D → Type 0
    Loads none = Unit {0}
    Loads (some osc) = (load osc).status ≡ 0

    -- the outcome and the state, with what was asked for
    abbrev Settles : Option D → AuditState D → AuditState D → Type 0
    Settles asked n t = AuditSettled asked t × SameAsked n t

    -- by whether the directory of the OSC is empty
    configure_by-Settles :
        (empty : Bool) (osc : D) (n : AuditState D)
        → (n.rules ≢ none) ⊎ (n.backup ≢ none)
        → Loads (if empty then none else some osc)
        → let r =
            (if empty then modify remove_auditd_config else install_rules contents load osc) n in
          EndsWell (Settles (if empty then none else some osc) n) r.0 r.1
    unfolding install_rules remove_auditd_config
    configure_by-Settles true osc n owned loads =
        (remove_with-backup n n.backup refl, remove_with-asked n n.backup)
    configure_by-Settles false osc n owned loads =
        let m = back_up n n.backup n.rules in
        let asked = back_up-asked n n.backup n.rules in
        let kept = installed-Keeps contents load SameAsked parts osc m in
        EndsWell-and (HasRules osc) (SameAsked n) (installed contents load osc m).0
          (installed contents load osc m).1
          (installed-HasRules contents load osc m loads (back_up-ne-none contents load osc n owned))
          (kept.0 ∙ asked.0, kept.1 ∙ asked.1)

    configure_auditd_with-Settles :
        (osc : Option D) (n : AuditState D)
        → (n.rules ≢ none) ⊎ (n.backup ≢ none)
        → Loads (wanted contents osc)
        → EndsWell
            (Settles (wanted contents osc) n)
            (configure_auditd_with contents load osc n).0
            (configure_auditd_with contents load osc n).1
    configure_auditd_with-Settles none n owned loads =
        configure_by-Settles true contents.no_files n owned loads
    configure_auditd_with-Settles (some osc) n owned loads =
        configure_by-Settles (contents.same osc contents.no_files) osc n owned loads

    pub configure_auditd-Settled :
        (n : AuditState D)
        → (n.rules ≢ none) ⊎ (n.backup ≢ none)
        → Loads (wanted contents n.osc_rules)
        → EndsWell
            (λ t. AuditSettled (wanted contents n.osc_rules) t × SameAsked n t)
            (configure_auditd contents load n).0
            (configure_auditd contents load n).1
    unfolding configure_auditd
    configure_auditd-Settled n = configure_auditd_with-Settles n.osc_rules n

    -- A settled state has nothing left to do.
    replace_rules-settled :
        (osc : D) (n : AuditState D) → HasRules osc n → replace_rules contents osc n ≡ (ok false, n)
    unfolding replace_rules
    replace_rules-settled osc n h = ground (arith, h.rules, (contents.same_iff osc osc).1 refl)

    load_and_report-settled :
        (n : AuditState D) → n.metric ≢ none → load_and_report contents load false n ≡ (ok tt, n)
    unfolding load_and_report
    load_and_report-settled n h = ground arith

    enable_plugin-settled :
        (n : AuditState D)
        → plugin_is_on n.audisp_plugin n.syslog_plugin ≡ true
        → enable_plugin n ≡ (ok false, n)
    unfolding enable_plugin
    enable_plugin-settled n h = ground arith

    start_auditd-settled :
        (n : AuditState D) → n.auditd.active ≡ true → start_auditd false n ≡ (ok tt, n)
    unfolding start_auditd
    start_auditd-settled n h = ground arith

    stop_audit_socket-settled :
        (n : AuditState D) → socket_is_off n.audit_socket ≡ true → stop_audit_socket n ≡ (ok tt, n)
    unfolding stop_audit_socket
    stop_audit_socket-settled n h = ground (arith, append-nil n.commands)

    back_up-settled :
        (n : AuditState D) (backup rules : Option D) → backup ≢ none → back_up n backup rules ≡ n
    back_up-settled n backup rules h = ground arith

    install_rules-settled :
        (osc : D) (n : AuditState D)
        → HasRules osc n
        → install_rules contents load osc n ≡ (ok tt, n)
    unfolding install_rules
    install_rules-settled osc n h =
        ap (installed contents load osc) (back_up-settled n n.backup n.rules h.backed_up)
        ∙ >>=-eq (replace_rules contents osc) _ n (replace_rules-settled osc n h)
        ∙ >>=-eq (load_and_report contents load false) _ n (load_and_report-settled n h.reported)
        ∙ >>=-eq enable_plugin _ n (enable_plugin-settled n h.plugin)
        ∙ >>=-eq (start_auditd false) _ n (start_auditd-settled n h.active)
        ∙ stop_audit_socket-settled n h.socket

    configure_by-settled :
        (empty : Bool) (osc : D) (n : AuditState D)
        → AuditSettled (if empty then none else some osc) n
        → (if empty then modify remove_auditd_config else install_rules contents load osc) n
          ≡ (ok tt, n)
    unfolding remove_auditd_config
    configure_by-settled true osc n h = ap (λ b. (ok tt, remove_with n b)) h
    configure_by-settled false osc n h = install_rules-settled osc n h

    configure_auditd_with-settled :
        (osc : Option D) (n : AuditState D)
        → AuditSettled (wanted contents osc) n
        → configure_auditd_with contents load osc n ≡ (ok tt, n)
    configure_auditd_with-settled none n h = configure_by-settled true contents.no_files n h
    configure_auditd_with-settled (some osc) n h =
        configure_by-settled (contents.same osc contents.no_files) osc n h

    pub configure_auditd-settled :
        (n : AuditState D)
        → AuditSettled (wanted contents n.osc_rules) n
        → configure_auditd contents load n ≡ (ok tt, n)
    unfolding configure_auditd
    configure_auditd-settled n = configure_auditd_with-settled n.osc_rules n
