-- ===== src/Tests/Ensurer.antt =====
-- The files that the webhook adds.
use gardener_extension_shoot.Common.{
  String, ℕ, List, [], ◌∷◌, map, Option, none, some, false, str_eq, eq_iff, if◌then◌else◌, ◌≡◌, inr,
  refl, arith, Text, codes,
}
use gardener_extension_shoot.Admission.Shoot.Admitted.{first_resource}
use gardener_extension_shoot.Validation.{has}
use gardener_extension_shoot.Osc.Files.{File, FileContent, inline, secret_ref}
use gardener_extension_shoot.Osc.Rsyslog.{get_rsyslog_files, rsyslog_config_from_osc_path}
use gardener_extension_shoot.Osc.Audit.{get_audit_files}
use gardener_extension_shoot.Osc.Ensurer.{
  Seed, SeedShoot, SeedCluster, Extension, ensure_additional_files,
}
use gardener_extension_shoot.Osc.Ensurer.Files.{file_at, PutsFiles}
use gardener_extension_shoot.Osc.Ensurer.Owned.{owned_paths}
use gardener_extension_shoot.Osc.Ensurer.Laws.{
  ensure_additional_files-file_at, ensure_additional_files_twice,
}
use gardener_extension_shoot.Node.{Node}
use gardener_extension_shoot.Node.Delivered.{Agent, written_file}
use gardener_extension_shoot.Tests.Node.{asked_for}
use gardener_extension_shoot.Tests.Data.{latin, shoot, api, validation}
use gardener_extension_shoot.Tests.Rsyslog.{library}
use gardener_extension_shoot.Tests.Audit.{audit}

-- replaces the first file with the path, or adds one at the end
unfoldable put_file : List File → File → List File
put_file [] f = f ∷ []
put_file (g ∷ gs) f = if str_eq g.path f.path then f ∷ gs else g ∷ put_file gs f

abbrev extension : Extension
extension = record { namespace = "shoot--foo--bar"; provider_config = some "{}" }

abbrev seed_shoot : SeedShoot
seed_shoot = record {
  name = "bar";
  uid = "1";
  deletion_timestamp = none;
  resources = shoot.resources;
}

abbrev seed_cluster : SeedCluster
seed_cluster = record { name = "shoot--foo--bar"; shoot = some seed_shoot }

abbrev seed : Seed
seed = record {
  get_extension = λ key. inr extension;
  show_key = λ key. key.name;
  decode_config = api.decode_config;
  ensure_file_with_path = put_file;
  ensure_unit_with_name = λ units unit. unit ∷ units;
}

puts_files : PutsFiles seed
unfolding put_file file_at
puts_files [] f path = refl
puts_files (g ∷ gs) f path =
    ground
      (arith, eq_iff g.path f.path, eq_iff g.path path, eq_iff f.path path, puts_files gs f path)

abbrev foreign_file : File
foreign_file = record { path = "/etc/motd"; permissions = none; content = inline "" (codes "hi") }

-- What a run of the webhook computes with.
unfoldable runs : Unit {0}
unfolding ensure_additional_files get_rsyslog_files get_audit_files first_resource put_file
    validation
runs = tt

added_paths :
    map
      (λ (f : File). f.path)
      (ensure_additional_files latin library audit seed (inr seed_cluster) (foreign_file ∷ [])).1
    ≡ "/etc/motd" ∷ "/var/lib/rsyslog-relp-configurator/tls/ca.crt"
      ∷ "/var/lib/rsyslog-relp-configurator/tls/tls.crt"
      ∷ "/var/lib/rsyslog-relp-configurator/tls/tls.key"
      ∷ "/var/lib/rsyslog-relp-configurator/rsyslog.d/60-audit.conf"
      ∷ "/var/lib/rsyslog-relp-configurator/configure-rsyslog.sh"
      ∷ "/var/lib/rsyslog-relp-configurator/process-rsyslog-pstats.sh"
      ∷ "/etc/systemd/system/rsyslog.service.d/10-shoot-rsyslog-relp-memory-limits.conf"
      ∷ "/var/lib/rsyslog-relp-configurator/audit/rules.d/00_shoot_rsyslog_relp.rules" ∷ []
unfolding runs
added_paths = refl

is_foreign : has owned_paths "/etc/motd" ≡ false
unfolding has
is_foreign = refl

ensure_additional_files-file_at_example :
    file_at "/etc/motd"
      (ensure_additional_files latin library audit seed (inr seed_cluster) (foreign_file ∷ [])).1
    ≡ file_at "/etc/motd" (foreign_file ∷ [])
ensure_additional_files-file_at_example =
    ensure_additional_files-file_at latin library audit seed puts_files (inr seed_cluster)
      "/etc/motd" (foreign_file ∷ []) is_foreign

ensure_additional_files_twice_example :
    let first =
      ensure_additional_files latin library audit seed (inr seed_cluster) (foreign_file ∷ []) in
    let second = ensure_additional_files latin library audit seed (inr seed_cluster) first.1 in
    (second.0 ≡ first.0) × ((path : String) → file_at path second.1 ≡ file_at path first.1)
ensure_additional_files_twice_example =
    ensure_additional_files_twice latin library audit seed puts_files (inr seed_cluster)
      (foreign_file ∷ [])

abbrev written : FileContent → Option Text
written (inline encoding text) = some text
written (secret_ref name key) = none

abbrev agent : Agent library
agent = record { written = written; decodes = λ text. refl }

-- a node with rsyslog and the configuration that the webhook has computed
abbrev node : Node ℕ
node = record (asked_for 2) {
  relp = record (asked_for 2).relp {
    osc_config = written_file agent (
        file_at rsyslog_config_from_osc_path
          (ensure_additional_files latin library audit seed (inr seed_cluster)
            (foreign_file ∷ [])).1);
  };
}
