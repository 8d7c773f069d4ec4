-- ===== src/Node/Failure.antt =====
-- What becomes of rules that augenrules does not load.
pub mod Runs
use gardener_extension_shoot.Common.{
  ℕ, zero, suc, Option, none, some, Bool, true, false, ◌||◌, if_cases, if◌then◌else◌, ◌≡◌, ◌≢◌,
  refl, sym, ap, ◌∙◌, subst, arith,
}
use gardener_extension_shoot.Common.Outcome.{Outcome, ok, err, panic}
use gardener_extension_shoot.Common.Effect.{Effect, ◌>>=◌, ◌>>◌, modify, proceed}
use gardener_extension_shoot.Common.Effect.Laws.{
  IsPreorder, Keeps, >>=-Keeps, >>-Keeps, >>=-eq, >>=-err,
}
use gardener_extension_shoot.Node.{Contents, Load, AuditState, RsyslogState, Node}
use gardener_extension_shoot.Node.Audit.{
  remove_auditd_config, back_up, rules_or_new, replace_rules, report, load_and_report,
  enable_plugin_of, enable_plugin, start_auditd, stop_audit_socket, install_rules,
  configure_auditd_with, configure_auditd,
}
use gardener_extension_shoot.Node.Parts.{FollowedKeep, followed, followed-Keeps}
use gardener_extension_shoot.Node.Script.{
  configure_auditd_if_installed, configure_rsyslog_if_installed, configure,
}

module _ {D : Type 0} where
  -- What no step changes: the metric, what the OSC asks for and whether auditd is installed.
  abbrev SameReport : AuditState D → AuditState D → Type 0
  SameReport s t =
      (t.metric ≡ s.metric)
      × (t.osc_rules ≡ s.osc_rules)
      × (t.auditd.installed ≡ s.auditd.installed)

  module _ (contents : Contents D) (load : D → Load) (osc : D) where
    -- The same, once the rules are those of the OSC.
    abbrev SameWithRules : AuditState D → AuditState D → Type 0
    SameWithRules s t = s.rules ≡ some osc → (t.rules ≡ some osc) × SameReport s t

    SameWithRules-IsPreorder : IsPreorder SameWithRules
    SameWithRules-IsPreorder = record {
      same = λ s there. (there, (refl, refl, refl));
      after = λ s t u h k there.
          let (first, (a, b, c)) = h there in
          let (second, (d, e, f)) = k first in (second, (d ∙ a, e ∙ b, f ∙ c));
    }

    enable_plugin-Keeps_report : Keeps SameWithRules enable_plugin
    unfolding enable_plugin
    enable_plugin-Keeps_report n there = ground arith

    start_auditd-Keeps_report : (restart : Bool) → Keeps SameWithRules (start_auditd restart)
    unfolding start_auditd
    start_auditd-Keeps_report restart n there = ground arith

    stop_audit_socket-Keeps_report : Keeps SameWithRules stop_audit_socket
    unfolding stop_audit_socket
    stop_audit_socket-Keeps_report n there = ground arith

    module _ (fails : (load osc).status ≢ 0) where
      load_and_report-Keeps_report :
          (changed : Bool) → Keeps SameWithRules (load_and_report contents load changed)
      unfolding load_and_report
      load_and_report-Keeps_report changed n there = rw there ground arith

      load_and_report-err :
          (changed : Bool) (n : AuditState D)
          → n.rules ≡ some osc
          → n.metric ≡ none
          → (load_and_report contents load changed n).0 ≡ err (load osc).status
      unfolding load_and_report
      load_and_report-err changed n there unreported = rw (there, unreported) ground arith

      follow : FollowedKeep contents load SameWithRules
      follow = record {
        order = SameWithRules-IsPreorder;
        reports = load_and_report-Keeps_report;
        enables = enable_plugin-Keeps_report;
        starts = start_auditd-Keeps_report;
        stops = stop_audit_socket-Keeps_report;
      }

      -- With rules that fail: the metric is as before, and without one this is the end.
      abbrev pub Fails : AuditState D → Outcome ℕ (Unit {0}) × AuditState D → Type 0
      Fails s r = SameReport s r.1 × (s.metric ≡ none → r.0 ≡ err (load osc).status)

      followed-Fails :
          (changed : Bool) (n : AuditState D)
          → n.rules ≡ some osc
          → Fails n (followed contents load changed n)
      followed-Fails changed n there = (
        (followed-Keeps contents load SameWithRules follow changed n there).1,
        λ unreported.
            >>=-err (load_and_report contents load changed) _ n
              (load_and_report-err changed n there unreported),
      )

      replaced-Fails :
          (n : AuditState D) → Fails n ((replace_rules contents osc >>= followed contents load) n)
      unfolding replace_rules
      replaced-Fails n =
          if_cases
            (λ (r : Outcome ℕ Bool × AuditState D).
              Fails n (proceed (followed contents load) r.0 r.1))
            (contents.same osc (rules_or_new contents n.rules)) _ _
            (λ same.
              followed-Fails false (record n { rules = some (rules_or_new contents n.rules) })
                (ap some (sym ((contents.same_iff osc _).0 same))))
            (λ other. followed-Fails true (record n { rules = some osc }) refl)

      back_up-SameReport :
          (n : AuditState D) (backup rules : Option D) → SameReport n (back_up n backup rules)
      back_up-SameReport n none (some r) = (refl, refl, refl)
      back_up-SameReport n none none = (refl, refl, refl)
      back_up-SameReport n (some b) rules = (refl, refl, refl)

      install_rules-Fails : (n : AuditState D) → Fails n (install_rules contents load osc n)
      unfolding install_rules
      install_rules-Fails n =
          let backed_up = back_up-SameReport n n.backup n.rules in
          let (kept, ends) = replaced-Fails (back_up n n.backup n.rules) in
          (
            (kept.0 ∙ backed_up.0, kept.1 ∙ backed_up.1, kept.2 ∙ backed_up.2),
            λ unreported. ends (backed_up.0 ∙ unreported),
          )

      module _ (not_empty : contents.same osc contents.no_files ≡ false) where
        pub configure_auditd-Fails :
            (n : AuditState D) → n.osc_rules ≡ some osc → Fails n (configure_auditd contents load n)
        unfolding configure_auditd
        configure_auditd-Fails n asked =
            subst (λ o. Fails n (configure_auditd_with contents load o n)) (sym asked)
              (subst
                (λ b.
                  Fails n (
                    (if b then modify remove_auditd_config else install_rules contents load osc) n))
                (sym not_empty) (install_rules-Fails n))
