-- ===== src/Node/Settled/Rsyslog.antt =====
-- configure_rsyslog, by the files of the OSC.
use gardener_extension_shoot.Common.{
  ℕ, List, [], ◌∷◌, Option, none, some, Bool, true, false, ◌||◌, not, if_cases, if_true, if_false,
  Option-cases, inl, inr, subst, ◌≡◌, ◌≢◌, refl, sym, ap, ◌∙◌, arith,
}
use gardener_extension_shoot.Common.Outcome.{Outcome, ok}
use gardener_extension_shoot.Common.Effect.{◌>>=◌}
use gardener_extension_shoot.Common.Effect.Laws.{EndsWell, >>=-EndsWell, >>=-eq}
use gardener_extension_shoot.Node.{Contents, RsyslogState}
use gardener_extension_shoot.Node.Rsyslog.{
  enable_rsyslog, same_text, config_differs, copy_config_from, copy_config, tls_or_new,
  copy_tls_from, copy_tls, start_rsyslog, configure_rsyslog,
}
use gardener_extension_shoot.Node.Settled.{wanted, RsyslogSettled}

same_text_sound : (s t : List ℕ) → same_text s t ≡ true → s ≡ t
same_text_sound [] [] h = refl
same_text_sound [] (d ∷ t) h = cc
same_text_sound (c ∷ s) [] h = cc
same_text_sound (c ∷ s) (d ∷ t) h = ground (arith, same_text_sound s t)

same_text_refl : (s : List ℕ) → same_text s s ≡ true
same_text_refl [] = refl
same_text_refl (c ∷ s) = ground (arith, same_text_refl s)

config_differs_sound :
    (osc : List ℕ) (config : Option (List ℕ))
    → config_differs osc config ≡ false
    → config ≡ some osc
config_differs_sound osc none h = cc
config_differs_sound osc (some config) h = ground (arith, same_text_sound osc config)

config_differs_self : (osc : List ℕ) → config_differs osc (some osc) ≡ false
config_differs_self osc = ap not (same_text_refl osc)

module _ {D : Type 0} (contents : Contents D) (asked : RsyslogState D) where
  -- What the script is asked for does not change.
  abbrev Asked : RsyslogState D → Type 0
  Asked n =
      (n.osc_config ≡ asked.osc_config)
      × (n.osc_tls ≡ asked.osc_tls)
      × (n.rsyslog.installed ≡ asked.rsyslog.installed)

  abbrev Ready : RsyslogState D → Type 0
  Ready n =
      (n.rsyslog.enabled ≡ true)
      × (n.spool_dir ≡ true)
      × (n.osc_config ≡ asked.osc_config)
      × (n.osc_tls ≡ asked.osc_tls)
      × (n.rsyslog.installed ≡ asked.rsyslog.installed)

  abbrev Configured : RsyslogState D → Type 0
  Configured n = Ready n × (n.config ≡ asked.osc_config)

  abbrev Secured : RsyslogState D → Type 0
  Secured n = Ready n × (n.config ≡ asked.osc_config) × (n.tls ≡ wanted contents asked.osc_tls)

  enable_rsyslog-Ready : Ready (record (enable_rsyslog asked) { spool_dir = true })
  unfolding enable_rsyslog
  enable_rsyslog-Ready = ground arith

  copy_config_from-Configured :
      (osc : List ℕ) (n : RsyslogState D)
      → asked.osc_config ≡ some osc
      → Ready n
      → EndsWell Configured (copy_config_from (some osc) n).0 (copy_config_from (some osc) n).1
  copy_config_from-Configured osc n is ready =
      if_cases (λ (r : Outcome ℕ Bool × RsyslogState D). EndsWell Configured r.0 r.1)
        (config_differs osc n.config) _ _ (λ other. (ready, sym is))
        (λ same. (ready, config_differs_sound osc n.config same ∙ sym is))

  copy_config-Configured :
      (n : RsyslogState D)
      → asked.osc_config ≢ none
      → Ready n
      → EndsWell Configured (copy_config n).0 (copy_config n).1
  unfolding copy_config
  copy_config-Configured n delivered ready = elim (Option-cases asked.osc_config) [
    | inl missing ↦ absurd (delivered missing)
    | inr (osc, is) ↦
        subst (λ c. EndsWell Configured (copy_config_from c n).0 (copy_config_from c n).1)
          (sym (ready.2 ∙ is)) (copy_config_from-Configured osc n is ready)
  ]

  copy_tls_by-Secured :
      (osc : Option D) (n : RsyslogState D)
      → Ready n
      → n.config ≡ asked.osc_config
      → asked.osc_tls ≡ osc
      → EndsWell Secured (copy_tls_from contents osc n).0 (copy_tls_from contents osc n).1
  copy_tls_by-Secured none n ready config is = (ready, config, ap (wanted contents) (sym is))
  copy_tls_by-Secured (some osc) n ready config is =
      let asks = ap (wanted contents) is in
      if_cases (λ (r : Outcome ℕ Bool × RsyslogState D). EndsWell Secured r.0 r.1)
        (contents.same osc contents.no_files) _ _
        (λ empty. (ready, config, sym (asks ∙ if_true _ none (some osc) empty)))
        (λ full.
          let all_of_it = sym (asks ∙ if_false _ none (some osc) full) in
          if_cases (λ (r : Outcome ℕ Bool × RsyslogState D). EndsWell Secured r.0 r.1)
            (contents.same osc (tls_or_new contents n.tls)) _ _
            (λ same. (ready, config, ap some (sym ((contents.same_iff osc _).0 same)) ∙ all_of_it))
            (λ other. (ready, config, all_of_it)))

  copy_tls-Secured :
      (n : RsyslogState D)
      → Configured n
      → EndsWell Secured (copy_tls contents n).0 (copy_tls contents n).1
  unfolding copy_tls
  copy_tls-Secured n h = copy_tls_by-Secured n.osc_tls n h.0 h.1 (sym h.0.3)

  Secured-Settled :
      (t : RsyslogState D)
      → Secured t
      → asked.osc_config ≢ none
      → t.rsyslog.active ≡ true
      → RsyslogSettled contents t × Asked t
  Secured-Settled t h delivered active =
      let ready = h.0 in
      (
        record {
          enabled = ready.0;
          spool_dir = ready.1;
          config = h.1 ∙ sym ready.2;
          delivered = λ missing. delivered (sym ready.2 ∙ missing);
          tls = h.2 ∙ sym (ap (wanted contents) ready.3);
          active = active;
        },
        (ready.2, ready.3, ready.4),
      )

  start_rsyslog-Settled :
      (restart : Bool) (n : RsyslogState D)
      → Secured n
      → asked.osc_config ≢ none
      → EndsWell
          (λ t. RsyslogSettled contents t × Asked t)
          (start_rsyslog restart n).0
          (start_rsyslog restart n).1
  unfolding start_rsyslog
  start_rsyslog-Settled restart n h delivered =
      let P : Outcome ℕ (Unit {0}) × RsyslogState D → Type 0 =
        λ r. EndsWell (λ t. RsyslogSettled contents t × Asked t) r.0 r.1 in
      if_cases P (not n.rsyslog.active) _ _ (λ _. Secured-Settled _ h delivered refl)
        (λ active.
          if_cases P restart _ _ (λ _. Secured-Settled _ h delivered refl)
            (λ _. Secured-Settled n h delivered (ground arith)))

  pub configure_rsyslog-Settled :
      asked.osc_config ≢ none
      → EndsWell
          (λ t. RsyslogSettled contents t × Asked t)
          (configure_rsyslog contents asked).0
          (configure_rsyslog contents asked).1
  unfolding configure_rsyslog
  configure_rsyslog-Settled delivered =
      let ready : RsyslogState D = record (enable_rsyslog asked) { spool_dir = true } in
      >>=-EndsWell Configured _ copy_config _ ready
        (copy_config-Configured ready delivered enable_rsyslog-Ready)
        λ copied t configured.
          >>=-EndsWell Secured _ (copy_tls contents) _ t (copy_tls-Secured t configured)
            λ replaced u secured. start_rsyslog-Settled (copied || replaced) u secured delivered

-- A settled state has nothing left to do.
module _ {D : Type 0} (contents : Contents D) where
  copy_config_from-settled :
      (osc : Option (List ℕ)) (n : RsyslogState D)
      → osc ≢ none
      → n.config ≡ osc
      → copy_config_from osc n ≡ (ok false, n)
  copy_config_from-settled none n delivered is = absurd (delivered refl)
  copy_config_from-settled (some osc) n delivered is =
      if_false _ _ _ (ap (config_differs osc) is ∙ config_differs_self osc)

  copy_tls_from-settled :
      (osc : Option D) (n : RsyslogState D)
      → n.tls ≡ wanted contents osc
      → copy_tls_from contents osc n ≡ (ok false, n)
  copy_tls_from-settled none n is = ground arith
  copy_tls_from-settled (some osc) n is = ground (arith, (contents.same_iff osc osc).1 refl)

  start_rsyslog-settled :
      (n : RsyslogState D) → n.rsyslog.active ≡ true → start_rsyslog false n ≡ (ok tt, n)
  unfolding start_rsyslog
  start_rsyslog-settled n active = ground arith

  enable_rsyslog-settled :
      (n : RsyslogState D)
      → n.rsyslog.enabled ≡ true
      → n.spool_dir ≡ true
      → record (enable_rsyslog n) { spool_dir = true } ≡ n
  unfolding enable_rsyslog
  enable_rsyslog-settled n enabled spool_dir = ground arith

  pub configure_rsyslog-settled :
      (n : RsyslogState D) → RsyslogSettled contents n → configure_rsyslog contents n ≡ (ok tt, n)
  unfolding configure_rsyslog copy_config copy_tls
  configure_rsyslog-settled n h =
      ap
        (λ m.
          (copy_config >>= λ copied.
          copy_tls contents >>= λ replaced. start_rsyslog (copied || replaced))
            m)
        (enable_rsyslog-settled n h.enabled h.spool_dir)
      ∙ >>=-eq copy_config _ n (copy_config_from-settled n.osc_config n h.delivered h.config)
      ∙ >>=-eq (copy_tls contents) _ n (copy_tls_from-settled n.osc_tls n h.tls)
      ∙ start_rsyslog-settled n h.active
