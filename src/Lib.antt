-- ===== src/Lib.antt =====
-- The rsyslog relp extension for Gardener shoots, a Go program: an admission webhook that validates
-- the Shoots which use the extension, a mutating webhook that puts the rsyslog configuration into the
-- OperatingSystemConfig of their nodes, and a controller for the monitoring and the clean-up.
--
-- The files, and the code that each models:
-- - Common: texts, lists over the native numbers, Go maps as association lists, and Outcome, the
--   result of a Go function: a value, an error, or a panic (the dereference of a nil pointer).
-- - Go: strconv.Quote and the decimal print of an int, with readers that undo them, and functions of
--   package strings. Texts are sequences of Unicode characters, so invalid UTF-8 is left out; what
--   strconv.IsPrint says above 0xFF is a parameter.
-- - Api: the types of pkg/apis/rsyslog and the constants of pkg/constants. A pointer is an Option.
-- - Field, Gardener: the values of the field package, recorded as the calls that build them, and
--   the Gardener and Kubernetes objects with the fields that the source reads.
-- - Validation: pkg/apis/rsyslog/validation. The loops that append errors are recursions which
--   carry the index. The three regular expressions of the package are matchers in Patterns. The
--   checks of k8s.io/apimachinery and regexp.CompilePOSIX are the parameter Checker. The code
--   compiles a regex behind strconv.Quote, and does not look at the audit configuration. In both it
--   differs from docs/development/input-validation.md: Documented has what that page asks for,
--   Backslashes regexes for which it matters.
-- - Admission: pkg/admission/validator/shoot.go. The decoder and the reader of the API server are
--   the parameter Api; the maps that the reader returns have distinct keys (HasMaps). A nil pointer
--   to a Shoot is an object of its own.
-- - Osc: pkg/webhook/operatingsystemconfig. Filters and Rsyslog model rsyslog.go, Audit auditd.go.
--   The values of the template are a record; executing the template, base64 and the embedded
--   scripts and rules are parameters, as are Gardener's lookup of a resource and its reader. The
--   core Shoot of the admission and the versioned one of the webhook are modelled by the same
--   resources. Ensurer models
--   ensurer.go: the list of files that a pointer refers to is the state. Expected
--   models webhooktest/webhooktest.go, whose embedded testdata are a parameter.
-- - Utils: pkg/utils/utils.go, ProjectName.
-- - Lifecycle: pkg/controller/lifecycle and pkg/component. Kube has the objects and the client, and
--   Monitoring, Cleaner and Actuator model monitoring.go, rsyslog_relp_config_cleaner.go and
--   actuator.go. The state of the seed is a parameter, which the clients of Gardener and Kubernetes
--   change; IsClient and IsSeed say what the code relies on. Waiting is a call that ends.
-- - V1alpha1: pkg/apis/rsyslog/v1alpha1, the types, conversions and defaults.
-- - Setup: test/common/configuration.go, how the repository's tests set up a Shoot.
-- - DeepCopy: pkg/apis/rsyslog/zz_generated.deepcopy.go, over the memory of Common/Memory, where
--   Layout has the structs with their pointers and Holds says which configuration they stand for. A
--   nil slice and an empty one stand for the same list.
-- - Startup: cmd. Admission and Controller model the RunE of the two programs, as calls of other
--   packages that are recorded and may fail; how they end is a parameter. Options models
--   pkg/cmd/rsyslogrelp/options.go.
-- - Node: resources/templates/scripts/configure-rsyslog.tpl.sh of the webhook, one definition for each
--   function and step of the script, and the script of computeCommand in
--   rsyslog_relp_config_cleaner.go. The state is what they read and write on a node. What a
--   directory holds is a type with a comparison for `diff -rq`, without hidden files; how
--   `augenrules --load` ends is a parameter, and what it compiles is not part of the state. The other
--   commands are taken to succeed, and so is a copy of what is there. An `active` line of a plugin
--   is its value, in lower case. Settled is about what a run leaves, Original about the rules from
--   before the extension, Failure about rules that do not load. The cleaner has no command for the
--   metrics or for the drop-in with the memory limits of rsyslog; the drop-in and the metrics of
--   rsyslog are not part of the state. Delivered puts the webhook, the agent that writes its files,
--   which is a parameter, and the script together.
-- - Verifier: the command that test/common/verifier.go runs on a node.
-- Not modelled are the template of the rsyslog configuration, the script that prints its
-- statistics, the deep copies of v1alpha1, which are the same for the same fields, the JSON text
-- of the dashboard, which is an argument, the flags of cmd, and the rest of the repository's
-- tests, which run commands on nodes of a cluster.
--
-- Numbers and fuel: an int is an integer without bound, since the code does no arithmetic on it;
-- the print of a number takes one more than the number as fuel, and is read back in full. The
-- reader of filters takes the number of conditions, which is at most four, as fuel.
pub mod Common
pub mod Api
pub mod Field
pub mod Go
pub mod Utils
pub mod Validation
pub mod Gardener
pub mod Osc
pub mod Admission
pub mod Lifecycle
pub mod V1alpha1
pub mod DeepCopy
pub mod Startup
pub mod Verifier
pub mod Setup
pub mod Node
mod Tests
