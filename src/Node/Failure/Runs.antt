-- ===== src/Node/Failure/Runs.antt =====
-- Runs of the script, one after another, with rules that augenrules does not load.
use gardener_extension_shoot.Common.{
  ℕ, zero, suc, none, some, true, false, if_true, ◌≡◌, ◌≢◌, refl, sym, ◌∙◌, subst,
}
use gardener_extension_shoot.Common.Outcome.{Outcome, ok, err}
use gardener_extension_shoot.Node.{Contents, Load, Node}
use gardener_extension_shoot.Node.Audit.{configure_auditd}
use gardener_extension_shoot.Node.Script.{on_audit, configure_auditd_if_installed, configure}
use gardener_extension_shoot.Node.Original.Kept.{proceed-audit}
use gardener_extension_shoot.Node.Failure.{SameReport, configure_auditd-Fails}

module _ {D : Type 0} (contents : Contents D) (load : D → Load) where
  -- the node after this many runs of the script
  abbrev pub runs : ℕ → Node D → Node D
  runs zero n = n
  runs (suc k) n = (configure contents load (runs k n)).1

  module _ (osc : D) (fails : (load osc).status ≢ 0)
      (not_empty : contents.same osc contents.no_files ≡ false) where
    -- The metric is as before; without one this is the end, and rsyslog is as before.
    abbrev Breaks : Node D → Outcome ℕ (Unit {0}) × Node D → Type 0
    Breaks n r =
        SameReport n.audit r.1.audit
        × (n.audit.metric ≡ none → (r.0 ≡ err (load osc).status) × (r.1.relp ≡ n.relp))

    configure_auditd-Breaks :
        (n : Node D)
        → n.audit.auditd.installed ≡ true
        → n.audit.osc_rules ≡ some osc
        → Breaks n (configure_auditd_if_installed contents load n)
    unfolding configure_auditd_if_installed
    configure_auditd-Breaks n on asked =
        let (kept, ends) = configure_auditd-Fails contents load osc fails not_empty n.audit asked in
        subst (Breaks n)
          (sym (
            if_true n.audit.auditd.installed (on_audit (configure_auditd contents load) n)
              (ok tt, n) on))
          (kept, λ unreported. (ends unreported, refl))

    configure-Breaks :
        (n : Node D)
        → n.audit.auditd.installed ≡ true
        → n.audit.osc_rules ≡ some osc
        → Breaks n (configure contents load n)
    unfolding configure
    configure-Breaks n on asked =
        let m = configure_auditd_if_installed contents load n in
        let (kept, ends) = configure_auditd-Breaks n on asked in
        (
          rw (proceed-audit contents load m.0 m.1) kept,
          λ unreported. rw (ends unreported).0 (refl, (ends unreported).1),
        )

    runs-asked :
        (k : ℕ) (n : Node D)
        → n.audit.auditd.installed ≡ true
        → n.audit.osc_rules ≡ some osc
        → SameReport n.audit (runs k n).audit × (n.audit.metric ≡ none → (runs k n).relp ≡ n.relp)
    runs-asked zero n on asked = ((refl, refl, refl), λ _. refl)
    runs-asked (suc k) n on asked =
        let (kept, same) = runs-asked k n on asked in
        let (again, ends) = configure-Breaks (runs k n) (kept.2 ∙ on) (kept.1 ∙ asked) in
        (
          (again.0 ∙ kept.0, again.1 ∙ kept.1, again.2 ∙ kept.2),
          λ unreported. (ends (kept.0 ∙ unreported)).1 ∙ same unreported,
        )

    -- For rules from the OSC on which augenrules exits with an error, on a node with auditd: the metric
    -- rsyslog_augenrules_load_success never changes, however often the script runs, so that one that
    -- says 1 goes on to say so.
    pub runs-metric :
        (k : ℕ) (n : Node D)
        → n.audit.auditd.installed ≡ true
        → n.audit.osc_rules ≡ some osc
        → (runs k n).audit.metric ≡ n.audit.metric
    runs-metric k n on asked = (runs-asked k n on asked).0.0

    -- If there is no metric yet on a node with auditd, and augenrules exits with an error on the rules
    -- from the OSC, then each run of the script, however many there were before, ends with that error
    -- and writes no metric, and rsyslog stays as it was before all of them.
    pub runs-eq-err :
        (k : ℕ) (n : Node D)
        → n.audit.auditd.installed ≡ true
        → n.audit.osc_rules ≡ some osc
        → n.audit.metric ≡ none
        → ((configure contents load (runs k n)).0 ≡ err (load osc).status)
          × ((runs k n).audit.metric ≡ none)
          × ((runs k n).relp ≡ n.relp)
    runs-eq-err k n on asked unreported =
        let (kept, same) = runs-asked k n on asked in
        let ends = (configure-Breaks (runs k n) (kept.2 ∙ on) (kept.1 ∙ asked)).1 in
        ((ends (kept.0 ∙ unreported)).0, kept.0 ∙ unreported, same unreported)
