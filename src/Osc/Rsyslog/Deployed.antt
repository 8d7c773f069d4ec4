-- ===== src/Osc/Rsyslog/Deployed.antt =====
-- The files that the webhook deploys for a Shoot that the admission has let through.
use gardener_extension_shoot.Common.{
  sym, if_true, if_false, if◌then◌else◌, String, List, [], ◌∷◌, ◌++◌, All, All-append, lookup,
  Option, none, some, true, Bool-cases, Text, concat, ◌≡◌, ◌≢◌, inl, inr, refl, arith, subst,
}
use gardener_extension_shoot.Common.Outcome.{Outcome, ok, ◌>>=◌, deref}
use gardener_extension_shoot.Api.{RsyslogRelpConfig, Tls}
use gardener_extension_shoot.Gardener.{Error, NamedResource, ShootExtension, Shoot, Secret}
use gardener_extension_shoot.Go.Strconv.{Unicode}
use gardener_extension_shoot.Validation.Patterns.{Checker}
use gardener_extension_shoot.Admission.Contents.{Api}
use gardener_extension_shoot.Admission.Shoot.Admitted.{
  first_resource, key_in, HasSecret, HasTlsSecret, IsTlsAdmitted, IsAuditAdmitted, HasMaps,
  first_extension,
}
use gardener_extension_shoot.Admission.Shoot.{a_shoot, validate}
use gardener_extension_shoot.Admission.Shoot.Laws.{validate-eq-ok_iff}
use gardener_extension_shoot.Osc.Files.{
  FileContent, inline, secret_ref, File, Cluster, Values, Library,
}
use gardener_extension_shoot.Osc.Rsyslog.{
  get_rsyslog_values, get_rsyslog_tls_values, tls_files, rsyslog_files, files_of_resource,
  get_rsyslog_tls_files, add_rsyslog_files, files_with_tls, get_rsyslog_files,
}

-- What the code relies on: the lookup of Gardener finds the first resource with the name, and the
-- template can be executed with any values.
pub record IsLibrary (library : Library) : Type 0 where
  pub first :
      (refs : List NamedResource) (name : String)
      → library.get_resource_by_name refs name ≡ first_resource name refs
  pub executes : (values : Values) → (config : Text) × (library.execute values ≡ inr config)

abbrev pub with_tls : Unicode → Values → Tls → Values
with_tls unicode values tls = record values { tls = some (get_rsyslog_tls_values unicode tls) }

-- The values that the template is executed with, by the TLS configuration.
abbrev pub template_values : Unicode → Values → Option Tls → Values
template_values unicode values none = values
template_values unicode values (some tls) =
    if tls.enabled then with_tls unicode values tls else values

-- The three files of a secret, if TLS is enabled.
abbrev pub IsFront : Option Tls → List File → Type 0
IsFront none front = front ≡ []
IsFront (some tls) front =
    if tls.enabled then ((secret_name : String) × (front ≡ tls_files secret_name)) else (front ≡ [])

module _ (library : Library) (api : Api) (shoot : Shoot) where
  -- A secret's key that a file is read from is one that a secret of the Shoot's namespace has.
  pub record IsStored (secret_name data_key : String) : Type 0 where
    pub name : String
    pub copied : secret_name ≡ concat (library.referenced_resources_prefix ∷ name ∷ [])
    pub secret : Secret
    pub stored : api.get_secret (key_in shoot name) ≡ inr secret
    pub held : lookup data_key secret.entries ≢ none

  abbrev pub IsReadable : FileContent → Type 0
  IsReadable (inline encoding text) = Unit
  IsReadable (secret_ref name data_key) = IsStored name data_key

  abbrev pub AreReadable : List File → Type 0
  AreReadable files = All (λ f. IsReadable f.content) files

  -- The outcome is a list of files that can be read: those of the secret, and those of rsyslog with
  -- the template, executed with the values.
  pub record Deploys (unicode : Unicode) (values : Values) (tls : Option Tls)
      (outcome : Outcome Error (List File)) : Type 0 where
    pub front : List File
    pub secret_files : IsFront tls front
    pub config : Text
    pub executed : library.execute (template_values unicode values tls) ≡ inr config
    pub files : outcome ≡ ok (front ++ rsyslog_files library config)
    pub readable : AreReadable (front ++ rsyslog_files library config)

  module _ (is_library : IsLibrary library) where
    -- the last part, behind the files of the secret
    record Ends (values : Values) (front : List File) (outcome : Outcome Error (List File))
        : Type 0 where
      config : Text
      executed : library.execute values ≡ inr config
      files : outcome ≡ ok (front ++ rsyslog_files library config)
      readable : AreReadable (front ++ rsyslog_files library config)

    add_rsyslog_files-Ends :
        (files : List File) (values : Values)
        → AreReadable files
        → Ends values files (add_rsyslog_files library files (library.execute values))
    unfolding add_rsyslog_files
    add_rsyslog_files-Ends files values readable =
        let (config, executed) = is_library.executes values in
        record {
          config = config;
          executed = executed;
          files = rw executed refl;
          readable =
              All-append _ files (rsyslog_files library config) readable (tt, (tt, (tt, (tt, tt))));
        }

    module _ (unicode : Unicode) (checker : Checker) where
      tls_files-AreReadable :
          (reference : String) (h : HasSecret unicode checker api shoot reference)
          → AreReadable (tls_files (concat (library.referenced_resources_prefix ∷ h.name ∷ [])))
      tls_files-AreReadable reference h =
          let of_key : (k : String)
              → lookup k h.secret.entries ≢ none
              → IsStored (concat (library.referenced_resources_prefix ∷ h.name ∷ [])) k =
            λ k held. record {
              name = h.name;
              copied = refl;
              secret = h.secret;
              stored = h.stored;
              held = held;
            } in
          (
            of_key _ h.content.authority,
            (of_key _ h.content.certificate, (of_key _ h.content.private_key, tt)),
          )

      get_rsyslog_tls_files-of_HasSecret :
          (cluster : Cluster) (reference : String)
          → cluster.resources ≡ shoot.resources
          → (h : HasSecret unicode checker api shoot reference)
          → get_rsyslog_tls_files library cluster reference
            ≡ ok (tls_files (concat (library.referenced_resources_prefix ∷ h.name ∷ [])))
      unfolding get_rsyslog_tls_files files_of_resource
      get_rsyslog_tls_files-of_HasSecret cluster reference same h =
          rw
            (
              same,
              is_library.first shoot.resources reference,
              h.refers.found,
              h.refers.right_kind,
              h.refers.target,
            )
            refl

      -- What the admission has let through, of the configuration that the extension has.
      pub admitted_config :
          (maps : HasMaps api) (ext : ShootExtension) (raw : String) (config : RsyslogRelpConfig)
          → validate unicode checker api (a_shoot shoot) ≡ ok tt
          → first_extension shoot.extensions ≡ some ext
          → ext.disabled ≢ some true
          → ext.provider_config ≡ some raw
          → api.decode_config raw ≡ inr config
          → IsTlsAdmitted unicode checker api shoot config.tls
            × IsAuditAdmitted unicode checker api shoot config.audit_config
      admitted_config maps ext raw config passed found on provided decoded =
          elim (rw found at (validate-eq-ok_iff unicode checker api maps shoot).0 passed) [
            | inl off ↦ absurd (on off)
            | inr admitted ↦
                let same : admitted.config ≡ config =
                  ground (arith, admitted.provided, admitted.decoded) in
                (
                  subst (λ c. IsTlsAdmitted unicode checker api shoot c.tls) same admitted.tls,
                  subst (λ c. IsAuditAdmitted unicode checker api shoot c.audit_config) same
                      admitted.audit,
                )
          ]

      files_of_reference-Ends :
          (cluster : Cluster) (values : Values) (reference : Option String)
          → cluster.resources ≡ shoot.resources
          → HasTlsSecret unicode checker api shoot reference
          → (secret_name : String) × Ends values (tls_files secret_name) (
              deref reference >>= λ name. get_rsyslog_tls_files library cluster name >>= λ files.
              add_rsyslog_files library files (library.execute values))
      files_of_reference-Ends cluster values none same h = absurd h
      files_of_reference-Ends cluster values (some reference) same h = (
        concat (library.referenced_resources_prefix ∷ h.name ∷ []),
        rw (get_rsyslog_tls_files-of_HasSecret cluster reference same h)
            (add_rsyslog_files-Ends _ values (tls_files-AreReadable reference h)),
      )

      Deploys-of_Ends :
          (values : Values) (tls : Option Tls) (front : List File)
          (outcome : Outcome Error (List File))
          → IsFront tls front
          → Ends (template_values unicode values tls) front outcome
          → Deploys unicode values tls outcome
      Deploys-of_Ends values tls front outcome secret_files ends = record {
        front = front;
        secret_files = secret_files;
        config = ends.config;
        executed = ends.executed;
        files = ends.files;
        readable = ends.readable;
      }

      -- a branch on the TLS configuration
      Deploys-of_branch :
          (values : Values) (tls : Tls) (a b : Outcome Error (List File))
          → (tls.enabled ≡ true
              → (name : String) × Ends (with_tls unicode values tls) (tls_files name) a)
          → Ends values [] b
          → Deploys unicode values (some tls) (if tls.enabled then a else b)
      Deploys-of_branch values tls a b h k = elim (Bool-cases tls.enabled) [
        | inl on ↦
            let (name, ends) = h on in
            Deploys-of_Ends values (some tls) (tls_files name) (if tls.enabled then a else b)
              (subst (λ T. T) (sym (if_true _ _ _ on)) (name, refl))
              (subst (λ v. Ends v (tls_files name) (if tls.enabled then a else b))
                (sym (if_true _ _ _ on))
                (subst (Ends (with_tls unicode values tls) (tls_files name))
                  (sym (if_true tls.enabled a b on)) ends))
        | inr off ↦
            Deploys-of_Ends values (some tls) [] (if tls.enabled then a else b)
              (subst (λ T. T) (sym (if_false _ _ _ off)) refl)
              (subst (λ v. Ends v [] (if tls.enabled then a else b)) (sym (if_false _ _ _ off))
                (subst (Ends values []) (sym (if_false tls.enabled a b off)) k))
      ]

      files_with_tls-Deploys :
          (cluster : Cluster) (values : Values) (tls : Option Tls)
          → cluster.resources ≡ shoot.resources
          → IsTlsAdmitted unicode checker api shoot tls
          → Deploys unicode values tls (files_with_tls unicode library values cluster tls)
      unfolding files_with_tls
      files_with_tls-Deploys cluster values none same h =
          Deploys-of_Ends values none [] _ refl (add_rsyslog_files-Ends [] values tt)
      files_with_tls-Deploys cluster values (some tls) same h =
          Deploys-of_branch values tls _ _
            (λ on.
              files_of_reference-Ends cluster (with_tls unicode values tls)
                tls.secret_reference_name same (h on))
            (add_rsyslog_files-Ends [] values tt)

      -- If Validate lets a Shoot through whose extension is not disabled, and the webhook reads the
      -- same configuration and the same resources, then the files of rsyslog are computed without an
      -- error or a panic: the three files of a secret if TLS is enabled, the template, executed with
      -- the values of the configuration, and the scripts. Each file that is read from a secret names
      -- the copy of a secret that the Shoot's namespace has, and a key that this secret holds. The
      -- template's execution must succeed, and Gardener's lookup find the first resource with the
      -- name.
      pub validated-Deploys :
          (maps : HasMaps api) (ext : ShootExtension) (raw : String) (config : RsyslogRelpConfig)
          (cluster : Cluster)
          → validate unicode checker api (a_shoot shoot) ≡ ok tt
          → first_extension shoot.extensions ≡ some ext
          → ext.disabled ≢ some true
          → ext.provider_config ≡ some raw
          → api.decode_config raw ≡ inr config
          → cluster.resources ≡ shoot.resources
          → Deploys unicode
              (get_rsyslog_values unicode config cluster)
              config.tls
              (get_rsyslog_files unicode library config cluster)
      unfolding get_rsyslog_files
      validated-Deploys maps ext raw config cluster passed found on provided decoded same =
          files_with_tls-Deploys cluster _ config.tls same
            (admitted_config maps ext raw config passed found on provided decoded).0
