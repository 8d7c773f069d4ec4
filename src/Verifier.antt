-- ===== src/Verifier.antt =====
-- test/common/verifier.go: the command that generates logs on a node.
pub mod Laws
use gardener_extension_shoot.Common.{
  String, List, [], ◌∷◌, ◌++◌, Text, codes, Bool, if◌then◌else◌, str_eq,
}
use gardener_extension_shoot.Utils.{trim_suffix}

pub record LogEntry : Type 0 where
  pub program : Text
  pub severity : Text
  pub message : Text
  pub should_be_forwarded : Bool

-- the field of Verifier that is read here
pub record Verifier : Type 0 where
  pub test_audit_logging : Bool

abbrev pub file_for_audit_event : Text
file_for_audit_event = codes "/etc/newfile"

-- what the loop adds for an entry, without the separator
abbrev pub log_command : LogEntry → Text
log_command entry =
    codes "echo "
    ++ (entry.message
        ++ (codes " | systemd-cat -t " ++ (entry.program ++ (codes " -p " ++ entry.severity))))

-- the loop over the entries, with the command so far
unfoldable pub add_log_commands : Text → List LogEntry → Text
add_log_commands command [] = command
add_log_commands command (entry ∷ entries) =
    add_log_commands (command ++ (log_command entry ++ codes "; ")) entries

abbrev pub audit_command : Text
audit_command =
    codes "echo some-content > "
    ++ (file_for_audit_event ++ (codes "; rm -f " ++ file_for_audit_event))

-- the command of generateLogs
unfoldable pub logs_command : Verifier → List LogEntry → Text
unfolding add_log_commands trim_suffix
logs_command v entries =
    let command : Text = add_log_commands [] entries in
    trim_suffix (if v.test_audit_logging then command ++ audit_command else command) (codes "; ")
