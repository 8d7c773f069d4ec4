-- ===== src/Node/Settled/Script.antt =====
-- One run of the script on a node, and the next.
use gardener_extension_shoot.Common.{
  ℕ, none, true, if_cases, ◌⊎◌, ◌≡◌, ◌≢◌, refl, sym, ap, ◌∙◌, subst,
}
use gardener_extension_shoot.Common.Outcome.{Outcome, ok}
use gardener_extension_shoot.Common.Effect.Laws.{
  EndsWell, >>=-EndsWell, EndsWell-eq-ok, EndsWell-map, >>=-eq,
}
use gardener_extension_shoot.Node.{Contents, Load, AuditState, RsyslogState, Node}
use gardener_extension_shoot.Node.Audit.{configure_auditd}
use gardener_extension_shoot.Node.Rsyslog.{configure_rsyslog}
use gardener_extension_shoot.Node.Script.{
  configure_auditd_if_installed, configure_rsyslog_if_installed, configure,
}
use gardener_extension_shoot.Node.Settled.{wanted, AuditSettled, RsyslogSettled, IsSettled}
use gardener_extension_shoot.Node.Settled.Audit.{
  Loads, configure_auditd-Settled, configure_auditd-settled,
}
use gardener_extension_shoot.Node.Settled.Rsyslog.{
  configure_rsyslog-Settled, configure_rsyslog-settled,
}

module _ {D : Type 0} where
  -- The files of the OSC are those of another node, and rsyslog is on both or on neither.
  pub record SameOsc (n t : Node D) : Type 0 where
    pub rules : t.audit.osc_rules ≡ n.audit.osc_rules
    pub config : t.relp.osc_config ≡ n.relp.osc_config
    pub tls : t.relp.osc_tls ≡ n.relp.osc_tls
    pub installed : t.relp.rsyslog.installed ≡ n.relp.rsyslog.installed

module _ {D : Type 0} (contents : Contents D) (load : D → Load) where
  -- The audit rules of a node are settled.
  abbrev AuditDone : AuditState D → Type 0
  AuditDone a = a.auditd.installed ≡ true → AuditSettled (wanted contents a.osc_rules) a

  abbrev RelpDone : RsyslogState D → Type 0
  RelpDone r = r.rsyslog.installed ≡ true → RsyslogSettled contents r

  -- Behind the first part of the script.
  abbrev Halfway : Node D → Node D → Type 0
  Halfway n t = AuditDone t.audit × (t.audit.osc_rules ≡ n.audit.osc_rules) × (t.relp ≡ n.relp)

  abbrev Whole : Node D → Node D → Type 0
  Whole n t = IsSettled contents t × SameOsc n t

  first_part :
      (n : Node D)
      → (n.audit.rules ≢ none) ⊎ (n.audit.backup ≢ none)
      → Loads contents load (wanted contents n.audit.osc_rules)
      → EndsWell
          (Halfway n)
          (configure_auditd_if_installed contents load n).0
          (configure_auditd_if_installed contents load n).1
  unfolding configure_auditd_if_installed
  first_part n owned loads =
      if_cases (λ (r : Outcome ℕ (Unit {0}) × Node D). EndsWell (Halfway n) r.0 r.1)
        n.audit.auditd.installed _ _
        (λ installed.
          EndsWell-map _ (Halfway n) (λ a. record n { audit = a })
            (configure_auditd contents load n.audit).0 (configure_auditd contents load n.audit).1
            (λ h. (
              λ _.
                  subst
                    (λ o.
                      AuditSettled (wanted contents o) (configure_auditd contents load n.audit).1)
                    (sym h.1.0) h.0,
              h.1.0,
              refl,
            ))
            (configure_auditd-Settled contents load n.audit owned loads))
        (λ missing. (λ installed. cc, refl, refl))

  second_part :
      (n t : Node D)
      → Halfway n t
      → n.relp.osc_config ≢ none
      → EndsWell
          (Whole n)
          (configure_rsyslog_if_installed contents load t).0
          (configure_rsyslog_if_installed contents load t).1
  unfolding configure_rsyslog_if_installed
  second_part n t h delivered =
      if_cases (λ (r : Outcome ℕ (Unit {0}) × Node D). EndsWell (Whole n) r.0 r.1)
        t.relp.rsyslog.installed _ _
        (λ installed.
          EndsWell-map _ (Whole n) (λ r. record t { relp = r })
            (configure_rsyslog contents t.relp).0 (configure_rsyslog contents t.relp).1
            (λ settled. (
              record { audit = h.0; relp = λ _. settled.0 },
              record {
                rules = h.1;
                config = settled.1.0 ∙ ap (λ r. r.osc_config) h.2;
                tls = settled.1.1 ∙ ap (λ r. r.osc_tls) h.2;
                installed = settled.1.2 ∙ ap (λ r. r.rsyslog.installed) h.2;
              },
            ))
            (configure_rsyslog-Settled contents t.relp
              (λ missing. delivered (sym (ap (λ r. r.osc_config) h.2) ∙ missing))))
        (λ missing. (
          record { audit = h.0; relp = λ installed. cc },
          record {
            rules = h.1;
            config = ap (λ r. r.osc_config) h.2;
            tls = ap (λ r. r.osc_tls) h.2;
            installed = ap (λ r. r.rsyslog.installed) h.2;
          },
        ))

  configure-EndsWell :
      (n : Node D)
      → (n.audit.rules ≢ none) ⊎ (n.audit.backup ≢ none)
      → Loads contents load (wanted contents n.audit.osc_rules)
      → n.relp.osc_config ≢ none
      → EndsWell (Whole n) (configure contents load n).0 (configure contents load n).1
  unfolding configure
  configure-EndsWell n owned loads delivered =
      >>=-EndsWell (Halfway n) (Whole n) (configure_auditd_if_installed contents load) _ n
        (first_part n owned loads) λ _ t h. second_part n t h delivered

  -- Nothing is left to do for a settled node.
  configure-settled : (n : Node D) → IsSettled contents n → configure contents load n ≡ (ok tt, n)
  unfolding configure configure_auditd_if_installed configure_rsyslog_if_installed
  configure-settled n h =
      >>=-eq (configure_auditd_if_installed contents load) _ n (
        if_cases (λ (r : Outcome ℕ (Unit {0}) × Node D). r ≡ (ok tt, n)) n.audit.auditd.installed _
          _
          (λ on.
            ap (λ r. (r.0, record n { audit = r.1 }))
              (configure_auditd-settled contents load n.audit (h.audit on)))
          (λ off. refl))
      ∙ if_cases (λ (r : Outcome ℕ (Unit {0}) × Node D). r ≡ (ok tt, n)) n.relp.rsyslog.installed _
          _
          (λ on.
            ap (λ r. (r.0, record n { relp = r.1 }))
              (configure_rsyslog-settled contents n.relp (h.relp on)))
          (λ off. refl)

  -- One run of the configuration script, on a node that has audit rules or a backup of them, with a
  -- rsyslog configuration from the OSC, and with rules from the OSC, if any, that augenrules loads,
  -- returns no error and settles the node: the rules, the rsyslog configuration and the files for TLS
  -- are those of the OSC, where it has any, the backup is gone where it has no rules, and the services
  -- that are installed run. From then on a run changes nothing and calls no command.
  pub configure-settles :
      (n : Node D)
      → (n.audit.rules ≢ none) ⊎ (n.audit.backup ≢ none)
      → Loads contents load (wanted contents n.audit.osc_rules)
      → n.relp.osc_config ≢ none
      → (t : Node D) × (configure contents load n ≡ (ok tt, t))
        × IsSettled contents t
        × SameOsc n t
        × (configure contents load t ≡ (ok tt, t))
  configure-settles n owned loads delivered =
      let t = (configure contents load n).1 in
      let (returned, whole) =
        EndsWell-eq-ok (Whole n) (configure contents load n).0 t
          (configure-EndsWell n owned loads delivered) in
      (t, returned, whole.0, whole.1, configure-settled t whole.0)
