-- ===== src/Tests/Verifier.antt =====
-- The command that generates logs.
use gardener_extension_shoot.Common.{[], ◌∷◌, ◌++◌, map, codes, true, ◌≡◌, refl, if◌then◌else◌}
use gardener_extension_shoot.Go.Strings.{join, strip_prefix}
use gardener_extension_shoot.Verifier.{LogEntry, Verifier, log_command, audit_command, logs_command}
use gardener_extension_shoot.Verifier.Laws.{separator, logs_command-eq-join}

abbrev verifier : Verifier
verifier = record { test_audit_logging = true }

abbrev entry : LogEntry
entry = record {
  program = codes "test-program";
  severity = codes "1";
  message = codes "hello";
  should_be_forwarded = true;
}

runs :
    logs_command verifier (entry ∷ [])
    ≡ codes
        "echo hello | systemd-cat -t test-program -p 1; echo some-content > /etc/newfile; rm -f /etc/newfile"
unfolding logs_command strip_prefix
runs = refl

logs_command-eq-join_example :
    logs_command verifier (entry ∷ entry ∷ [])
    ≡ join
        (map log_command (entry ∷ entry ∷ [])
          ++ (if verifier.test_audit_logging then audit_command ∷ [] else []))
        separator
logs_command-eq-join_example = logs_command-eq-join verifier (entry ∷ entry ∷ [])
