-- ===== src/Osc/Filters.antt =====
-- computeLogFilters of rsyslog.go: one filter of the rsyslog configuration for each logging rule.
pub mod Grammar
pub mod RoundTrip
pub mod Accepted
use gardener_extension_shoot.Common.{
  String, List, [], ◌∷◌, ◌++◌, map, Text, Option, none, some, codes,
}
use gardener_extension_shoot.Common.Int.{ℤ}
use gardener_extension_shoot.Api.{LoggingRule, MessageContent}
use gardener_extension_shoot.Go.Strconv.{Unicode, quote}
use gardener_extension_shoot.Go.Strconv.Decimal.{print_int}
use gardener_extension_shoot.Go.Strings.{join}

module _ (unicode : Unicode) where
  -- fmt.Sprintf("$programname == [%s]", strings.Join(programNames, ",")), if there are names
  unfoldable pub program_name_filters : List String → List Text
  program_name_filters [] = []
  program_name_filters (name ∷ names) =
      (codes "$programname == ["
        ++ (join (map (quote unicode) (name ∷ names)) (codes ",") ++ codes "]"))
      ∷ []

  -- fmt.Sprintf("$syslogseverity <= %d", *rule.Severity)
  unfoldable pub severity_filters : Option ℤ → List Text
  severity_filters none = []
  severity_filters (some severity) = (codes "$syslogseverity <= " ++ print_int severity []) ∷ []

  -- fmt.Sprintf("re_match($msg, %s) == 1", quotedRegex)
  unfoldable pub include_filters : Option String → List Text
  include_filters none = []
  include_filters (some regex) =
      (codes "re_match($msg, " ++ (quote unicode regex ++ codes ") == 1")) ∷ []

  -- fmt.Sprintf("re_match($msg, %s) == 0", quotedRegex)
  unfoldable pub exclude_filters : Option String → List Text
  exclude_filters none = []
  exclude_filters (some regex) =
      (codes "re_match($msg, " ++ (quote unicode regex ++ codes ") == 0")) ∷ []

  unfoldable pub message_filters : Option MessageContent → List Text
  unfolding include_filters exclude_filters
  message_filters none = []
  message_filters (some content) = include_filters content.regex ++ exclude_filters content.exclude

  -- one round of the loop: `currentFilters`, joined
  unfoldable pub current_filters : LoggingRule → List Text
  unfolding program_name_filters severity_filters message_filters
  current_filters rule =
      program_name_filters rule.program_names
      ++ (severity_filters rule.severity ++ message_filters rule.message_content)

  unfoldable pub compute_log_filters : List LoggingRule → List Text
  unfolding current_filters join
  compute_log_filters [] = []
  compute_log_filters (rule ∷ rules) =
      join (current_filters rule) (codes " and ") ∷ compute_log_filters rules
