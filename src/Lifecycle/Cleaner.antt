-- ===== src/Lifecycle/Cleaner.antt =====
-- rsyslog_relp_config_cleaner.go: the component that removes the rsyslog configuration from the
-- nodes: a DaemonSet, whose init container runs a script, in a managed resource.
use gardener_extension_shoot.Common.{
  String, ℕ, List, [], ◌∷◌, Map, Option, some, Bool, true, false, concat, ◌⊎◌, inl, inr,
}
use gardener_extension_shoot.Common.Outcome.{Outcome, ok, err}
use gardener_extension_shoot.Common.Effect.{Effect, ◌>>=◌, lift}
use gardener_extension_shoot.Gardener.{Error}
use gardener_extension_shoot.Osc.Rsyslog.{
  rsyslog_osc_dir, rsyslog_tls_dir, rsyslog_relp_queue_spool_dir,
}
use gardener_extension_shoot.Lifecycle.Monitoring.{service_name}

-- corev1.VolumeMount
pub record VolumeMount : Type 0 where
  pub name : String
  pub mount_path : String
  pub mount_propagation : Option String

-- corev1.Container; the quantities as texts
pub record Container : Type 0 where
  pub name : String
  pub image : String
  pub image_pull_policy : String
  pub command : List String
  pub allow_privilege_escalation : Option Bool
  pub requests : Map String
  pub limits : Map String
  pub volume_mounts : List VolumeMount

-- corev1.PodSpec; a volume of the host is its name and path
pub record PodSpec : Type 0 where
  pub automount_service_account_token : Option Bool
  pub priority_class_name : String
  pub seccomp_profile : String
  pub init_containers : List Container
  pub containers : List Container
  pub host_pid : Bool
  pub host_paths : Map String

-- appsv1.DaemonSet
pub record DaemonSet : Type 0 where
  pub name : String
  pub namespace : String
  pub labels : Map String
  pub revision_history_limit : Option ℕ
  pub match_labels : Map String
  pub pod_labels : Map String
  pub pod : PodSpec

-- rsyslogrelpconfigcleaner.Values
pub record Values : Type 0 where
  pub alpine_image : String
  pub pause_container_image : String

-- constants of other packages
pub record Constants : Type 0 where
  pub namespace_system : String
  pub priority_class_name : String
  pub seccomp_profile_runtime_default : String
  pub pull_if_not_present : String
  pub mount_propagation_host_to_container : String

-- The functions of package managedresources, over the state of the seed.
pub record ManagedResources (S : Type 0) : Type 0 where
  pub constants : Constants
  pub serialize : DaemonSet → Error ⊎ Map String
  pub create_for_shoot : String → String → String → Bool → Map String → Effect Error S (Unit {0})
  pub delete : String → String → Bool → Effect Error S (Unit {0})
  pub wait_until_healthy : String → String → Effect Error S (Unit {0})
  pub wait_until_deleted : String → String → Effect Error S (Unit {0})

abbrev pub rsyslog_config_path : String
rsyslog_config_path = "/etc/rsyslog.d/60-audit.conf"

abbrev pub audit_rules_dir : String
audit_rules_dir = "/etc/audit/rules.d"

abbrev pub audit_rules_backup_dir : String
audit_rules_backup_dir = "/etc/audit/rules.d.original"

abbrev pub audit_syslog_plugin_path : String
audit_syslog_plugin_path = "/etc/audit/plugins.d/syslog.conf"

abbrev pub audisp_syslog_plugin_path : String
audisp_syslog_plugin_path = "/etc/audisp/plugins.d/syslog.conf"

-- constants.Origin
abbrev pub origin : String
origin = "shoot-rsyslog-relp"

abbrev pub managed_resource_name : String
managed_resource_name = concat ("extension-" ∷ service_name ∷ "-configuration-cleaner" ∷ [])

abbrev pub get_labels : Map String
get_labels =
    ("app.kubernetes.io/name", "rsyslog-relp-configuration-cleaner")
    ∷ ("app.kubernetes.io/instance", "rsyslog-relp-configuration-cleaner")
    ∷ []

-- the script, piece by piece, with the paths of the host that it clears
abbrev pub script : List String
script =
    "if [[ -f /host/etc/systemd/system/rsyslog-configurator.service ]]; then\n  chroot /host /bin/bash -c 'systemctl disable rsyslog-configurator; systemctl stop rsyslog-configurator; rm -f /etc/systemd/system/rsyslog-configurator.service'\nfi\n\nif [[ -d /host"
    ∷ rsyslog_relp_queue_spool_dir ∷ " ]]; then\n  rm -rf /host" ∷ rsyslog_relp_queue_spool_dir
    ∷ "\nfi\n\nif [[ -f /host" ∷ audit_syslog_plugin_path
    ∷ " ]]; then\n  sed -i \"s/^active\\\\>.*/active = no/i\" /host" ∷ audit_syslog_plugin_path
    ∷ "\nfi\nif [[ -f /host" ∷ audisp_syslog_plugin_path
    ∷ " ]]; then\n  sed -i \"s/^active\\\\>.*/active = no/i\" /host" ∷ audisp_syslog_plugin_path
    ∷ "\nfi\n\nchroot /host /bin/bash -c 'if systemctl list-unit-files systemd-journald-audit.socket > /dev/null; then \\\n  systemctl enable systemd-journald-audit.socket; \\\n  systemctl start systemd-journald-audit.socket; \\\n  systemctl restart systemd-journald; \\\nfi'\n\nif [[ -d /host"
    ∷ audit_rules_backup_dir ∷ " ]]; then\n  if [[ -d /host" ∷ audit_rules_dir
    ∷ " ]]; then\n    rm -rf /host" ∷ audit_rules_dir ∷ "\n  fi\n  mv /host"
    ∷ audit_rules_backup_dir ∷ " /host" ∷ audit_rules_dir
    ∷ "\n  chroot /host /bin/bash -c 'if systemctl list-unit-files auditd.service > /dev/null; then augenrules --load; systemctl restart auditd; fi'\nfi\n\nif [[ -f /host"
    ∷ rsyslog_config_path ∷ " ]]; then\n  rm -f /host" ∷ rsyslog_config_path
    ∷ "\n  chroot /host /bin/bash -c 'if systemctl list-unit-files rsyslog.service > /dev/null; then systemctl restart rsyslog; fi'\nfi\n\nif [[ -d /host"
    ∷ rsyslog_tls_dir ∷ " ]]; then\n  rm -rf /host" ∷ rsyslog_tls_dir ∷ "\nfi\n\nif [[ -d /host"
    ∷ rsyslog_osc_dir ∷ " ]]; then\n  rm -rf /host" ∷ rsyslog_osc_dir ∷ "\nfi" ∷ []

unfoldable pub compute_command : List String
compute_command = "sh" ∷ "-c" ∷ concat script ∷ []

unfoldable pub daemon_set : Constants → Values → DaemonSet
unfolding compute_command
daemon_set constants values = record {
  name = "rsyslog-relp-configuration-cleaner";
  namespace = constants.namespace_system;
  labels = get_labels;
  revision_history_limit = some 2;
  match_labels = get_labels;
  pod_labels = get_labels;
  pod = record {
    automount_service_account_token = some false;
    priority_class_name = constants.priority_class_name;
    seccomp_profile = constants.seccomp_profile_runtime_default;
    init_containers =
        record {
          name = "rsyslog-relp-configuration-cleaner";
          image = values.alpine_image;
          image_pull_policy = constants.pull_if_not_present;
          command = compute_command;
          allow_privilege_escalation = some false;
          requests = ("cpu", "2m") ∷ ("memory", "8Mi") ∷ [];
          limits = ("memory", "32Mi") ∷ [];
          volume_mounts =
              record {
                name = "host-root-volume";
                mount_path = "/host";
                mount_propagation = some constants.mount_propagation_host_to_container;
              }
              ∷ [];
        }
        ∷ [];
    containers =
        record {
          name = "pause-container";
          image = values.pause_container_image;
          image_pull_policy = constants.pull_if_not_present;
          command = [];
          allow_privilege_escalation = some false;
          requests = [];
          limits = [];
          volume_mounts = [];
        }
        ∷ [];
    host_pid = true;
    host_paths = ("host-root-volume", "/") ∷ [];
  };
}

abbrev serialized : Error ⊎ Map String → Outcome Error (Map String)
serialized (inl e) = err e
serialized (inr m) = ok m

module _ {S : Type 0} (managed : ManagedResources S) (namespace : String) (values : Values) where
  unfoldable pub compute_resources_data : Outcome Error (Map String)
  unfolding daemon_set
  compute_resources_data = serialized (managed.serialize (daemon_set managed.constants values))

  unfoldable pub deploy : Effect Error S (Unit {0})
  unfolding compute_resources_data
  deploy = do
    resources ← lift compute_resources_data
    managed.create_for_shoot namespace managed_resource_name origin false resources

  unfoldable pub destroy : Effect Error S (Unit {0})
  destroy = managed.delete namespace managed_resource_name false

  -- the context with the timeout of two minutes is part of the functions that wait
  unfoldable pub wait : Effect Error S (Unit {0})
  wait = managed.wait_until_healthy namespace managed_resource_name

  unfoldable pub wait_cleanup : Effect Error S (Unit {0})
  wait_cleanup = managed.wait_until_deleted namespace managed_resource_name
