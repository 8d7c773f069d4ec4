-- ===== src/Osc/Ensurer/Owned.antt =====
-- The files that the webhook owns. Whatever ensurer.go returns, what it does to the list of files is
-- to add owned files, and which ones does not depend on the list.
use gardener_extension_shoot.Common.{
  String, List, [], ◌∷◌, ◌++◌, All, All-append, Option, none, some, true, Bool-cases, str_eq,
  concat, ◌≡◌, ◌⊎◌, inl, inr, refl, arith, subst,
}
use gardener_extension_shoot.Common.Outcome.{Outcome, ok, err, panic, ◌>>=◌, deref}
use gardener_extension_shoot.Common.Effect.{Effect, proceed, done, lift, modify}
use gardener_extension_shoot.Common.Effect
use gardener_extension_shoot.Api.{RsyslogRelpConfig, Tls}
use gardener_extension_shoot.Gardener.{
  Error, wrap_outcome, or_error, wrap_outcome-eq-ok, NamedResource, ObjectKey,
}
use gardener_extension_shoot.Go.Strconv.{Unicode}
use gardener_extension_shoot.Validation.{has}
use gardener_extension_shoot.Osc.Files.{File, Cluster, Values, Library}
use gardener_extension_shoot.Osc.Rsyslog.{
  configure_rsyslog_script_path, process_rsyslog_pstats_script_path, rsyslog_config_from_osc_path,
  rsyslog_tls_from_osc_dir, rsyslog_service_memory_limits_drop_in_path, rsyslog_files,
  files_of_resource, get_rsyslog_tls_files, add_rsyslog_files, files_with_tls, get_rsyslog_files,
}
use gardener_extension_shoot.Osc.Audit.{
  AuditLibrary, audit_rules_from_osc_dir, base_config_rules_path, privilege_escalation_rules_path,
  privilege_special_rules_path, system_integrity_rules_path, get_audit_config_from_config_map,
  get_default_audit_rules, files_by_reference, get_audit_files,
}
use gardener_extension_shoot.Osc.Ensurer.{
  Seed, SeedCluster, SeedShoot, cluster_of, Extension, ensure_files, ensure_audit_files,
  ensure_shoot_files, ensure_additional_files, decode_provider_config, wrap_outcome, or_error,
  populated, unless_deleted, audit_enabled,
}
use gardener_extension_shoot.Osc.Ensurer.Files.{ensure_files-append}

abbrev pub owned_paths : List String
owned_paths =
    concat (rsyslog_tls_from_osc_dir ∷ "/ca.crt" ∷ [])
    ∷ concat (rsyslog_tls_from_osc_dir ∷ "/tls.crt" ∷ [])
    ∷ concat (rsyslog_tls_from_osc_dir ∷ "/tls.key" ∷ [])
    ∷ rsyslog_config_from_osc_path
    ∷ configure_rsyslog_script_path
    ∷ process_rsyslog_pstats_script_path
    ∷ rsyslog_service_memory_limits_drop_in_path
    ∷ concat (audit_rules_from_osc_dir ∷ "/" ∷ "00_shoot_rsyslog_relp.rules" ∷ [])
    ∷ base_config_rules_path
    ∷ privilege_escalation_rules_path
    ∷ privilege_special_rules_path
    ∷ system_integrity_rules_path
    ∷ []

abbrev pub AreOwned : List File → Type 0
AreOwned files = All (λ f. has owned_paths f.path ≡ true) files

-- A list that is returned without an error is of owned files.
abbrev pub ReturnsOwned : Outcome Error (List File) → Type 0
ReturnsOwned (ok files) = AreOwned files
ReturnsOwned (err e) = Unit
ReturnsOwned panic = Unit

module _ (library : Library) where
  add_rsyslog_files-ReturnsOwned :
      (files : List File) (executed : Error ⊎ List _)
      → AreOwned files
      → ReturnsOwned (add_rsyslog_files library files executed)
  unfolding add_rsyslog_files has
  add_rsyslog_files-ReturnsOwned files (inl e) h = tt
  add_rsyslog_files-ReturnsOwned files (inr config) h =
      All-append _ files (rsyslog_files library config) h (refl, (refl, (refl, (refl, tt))))

  files_of_resource-ReturnsOwned :
      (reference : String) (o : Option NamedResource)
      → ReturnsOwned (files_of_resource library reference o)
  unfolding files_of_resource has
  files_of_resource-ReturnsOwned reference none = tt
  files_of_resource-ReturnsOwned reference (some ref) =
      elim (Bool-cases (str_eq ref.resource_ref.kind "Secret")) [
        | inl e ↦ rw e (refl, (refl, (refl, tt)))
        | inr e ↦ rw e tt
      ]

  >>=-ReturnsOwned :
      {A : Type 0} (m : Outcome Error A) (f : A → Outcome Error (List File))
      → ((a : A) → m ≡ ok a → ReturnsOwned (f a))
      → ReturnsOwned (m >>= f)
  >>=-ReturnsOwned (ok a) f h = h a refl
  >>=-ReturnsOwned (err e) f h = tt
  >>=-ReturnsOwned panic f h = tt

  files_with_tls-ReturnsOwned :
      (unicode : Unicode) (values : Values) (cluster : Cluster) (tls : Option Tls)
      → ReturnsOwned (files_with_tls unicode library values cluster tls)
  unfolding files_with_tls get_rsyslog_tls_files
  files_with_tls-ReturnsOwned unicode values cluster none = add_rsyslog_files-ReturnsOwned [] _ tt
  files_with_tls-ReturnsOwned unicode values cluster (some tls) = elim (Bool-cases tls.enabled) [
    | inl on ↦ rw on (
        >>=-ReturnsOwned (deref tls.secret_reference_name) _ λ reference named.
          >>=-ReturnsOwned (get_rsyslog_tls_files library cluster reference) _ λ files got.
            add_rsyslog_files-ReturnsOwned files _ (
              subst ReturnsOwned got (
                files_of_resource-ReturnsOwned reference
                  (library.get_resource_by_name cluster.resources reference))))
    | inr off ↦ rw off (add_rsyslog_files-ReturnsOwned [] _ tt)
  ]

  get_rsyslog_files-ReturnsOwned :
      (unicode : Unicode) (config : RsyslogRelpConfig) (cluster : Cluster)
      → ReturnsOwned (get_rsyslog_files unicode library config cluster)
  unfolding get_rsyslog_files
  get_rsyslog_files-ReturnsOwned unicode config cluster =
      files_with_tls-ReturnsOwned unicode _ cluster config.tls

  files_by_reference-ReturnsOwned :
      (audit : AuditLibrary) (namespace : String) (reference : Option String) (cluster : Cluster)
      → ReturnsOwned (files_by_reference library audit namespace reference cluster)
  unfolding files_by_reference get_audit_config_from_config_map get_default_audit_rules has
  files_by_reference-ReturnsOwned audit namespace none cluster = (refl, (refl, (refl, (refl, tt))))
  files_by_reference-ReturnsOwned audit namespace (some reference) cluster = ground arith

  get_audit_files-ReturnsOwned :
      (audit : AuditLibrary) (namespace : String) (config : RsyslogRelpConfig) (cluster : Cluster)
      → ReturnsOwned (get_audit_files library audit namespace config cluster)
  unfolding get_audit_files
  get_audit_files-ReturnsOwned audit namespace config cluster =
      files_by_reference-ReturnsOwned audit namespace _ cluster

-- Files that a function adds, and what it returns, whatever files there are before.
pub record Adds (seed : Seed) (m : Effect Error (List File) (Unit {0})) : Type 0 where
  pub files : List File
  pub outcome : Outcome Error (Unit {0})
  pub owned : AreOwned files
  pub runs : (before : List File) → m before ≡ (outcome, ensure_files seed files before)

module _ (seed : Seed) where
  done-Adds : Adds seed done
  unfolding ensure_files
  done-Adds = record { files = []; outcome = ok tt; owned = tt; runs = λ before. refl }

  modify-Adds : (files : List File) → AreOwned files → Adds seed (modify (ensure_files seed files))
  modify-Adds files owned = record {
    files = files;
    outcome = ok tt;
    owned = owned;
    runs = λ before. refl;
  }

  modify->>-Adds :
      (files : List File) (m : Effect Error (List File) (Unit {0}))
      → AreOwned files
      → Adds seed m
      → Adds seed (Effect.◌>>◌ (modify (ensure_files seed files)) m)
  modify->>-Adds files m owned h = record {
    files = files ++ h.files;
    outcome = h.outcome;
    owned = All-append _ files h.files owned h.owned;
    runs = λ before.
        rw (ensure_files-append seed files h.files before)
          (h.runs (ensure_files seed files before));
  }

  lift-Adds :
      {A : Type 0} (o : Outcome Error A) (f : A → Effect Error (List File) (Unit {0}))
      → ((a : A) → o ≡ ok a → Adds seed (f a))
      → Adds seed (Effect.◌>>=◌ (lift o) f)
  unfolding ensure_files
  lift-Adds (ok a) f h = h a refl
  lift-Adds (err e) f h = record { files = []; outcome = err e; owned = tt; runs = λ before. refl }
  lift-Adds panic f h = record { files = []; outcome = panic; owned = tt; runs = λ before. refl }

module _ (unicode : Unicode) (library : Library) (audit : AuditLibrary) (seed : Seed) where
  ensure_audit_files-Adds :
      (namespace : String) (config : RsyslogRelpConfig) (cluster : Cluster)
      → Adds seed (ensure_audit_files unicode library audit seed namespace config cluster)
  unfolding ensure_audit_files
  ensure_audit_files-Adds namespace config cluster =
      elim (Bool-cases (audit_enabled config.audit_config)) [
        | inl on ↦ rw on (
            lift-Adds seed _ _ λ (files : List File) got. modify-Adds seed files (
              subst ReturnsOwned (wrap_outcome-eq-ok "failed to get audit files: " _ got)
                (get_audit_files-ReturnsOwned library audit namespace config cluster)))
        | inr off ↦ rw off (done-Adds seed)
      ]

  pub ensure_shoot_files-Adds :
      (cluster : Cluster) → Adds seed (ensure_shoot_files unicode library audit seed cluster)
  unfolding ensure_shoot_files
  ensure_shoot_files-Adds cluster =
      let key : ObjectKey = record { namespace = cluster.name; name = "shoot-rsyslog-relp" } in
      lift-Adds seed
        (wrap_outcome (concat ("failed to get extension '" ∷ seed.show_key key ∷ "': " ∷ []))
          (or_error (seed.get_extension key)))
        _
        λ (extension : Extension) read.
          lift-Adds seed (decode_provider_config seed extension.provider_config) _
            λ (config : RsyslogRelpConfig) decoded. lift-Adds seed _ _ λ (files : List File) got.
              modify->>-Adds seed files _
                (subst ReturnsOwned (wrap_outcome-eq-ok "failed to get rsyslog files: " _ got)
                  (get_rsyslog_files-ReturnsOwned library unicode config cluster))
                (ensure_audit_files-Adds extension.namespace config cluster)

  unless_deleted-Adds :
      (deleted : Option String) (m : Effect Error (List File) (Unit {0}))
      → Adds seed m
      → Adds seed (unless_deleted deleted m)
  unless_deleted-Adds none m h = h
  unless_deleted-Adds (some time) m h = done-Adds seed

  pub ensure_additional_files-Adds :
      (get_cluster : Error ⊎ SeedCluster)
      → Adds seed (ensure_additional_files unicode library audit seed get_cluster)
  unfolding ensure_additional_files
  ensure_additional_files-Adds get_cluster =
      lift-Adds seed (or_error get_cluster) _ λ (cluster : SeedCluster) got.
        lift-Adds seed (populated cluster.shoot) _ λ (shoot : SeedShoot) there.
          unless_deleted-Adds shoot.deletion_timestamp _
            (ensure_shoot_files-Adds (cluster_of cluster.name shoot))
