-- ===== src/Osc/Filters/Accepted.antt =====
-- What the validation accepts gives filters that the rsyslog configuration can use.
use gardener_extension_shoot.Common.{List, [], ◌∷◌, All, ◌≢◌, arith}
use gardener_extension_shoot.Api.{LoggingRule, RsyslogRelpConfig}
use gardener_extension_shoot.Go.Strconv.{Unicode}
use gardener_extension_shoot.Validation.Patterns.{Checker}
use gardener_extension_shoot.Validation.Accepted.{IsRule, IsAccepted}
use gardener_extension_shoot.Osc.Filters.{compute_log_filters}
use gardener_extension_shoot.Osc.Filters.Grammar.{conditions}
use gardener_extension_shoot.Osc.Filters.RoundTrip.{filter-ne-nil}

module _ (unicode : Unicode) (checker : Checker) where
  conditions-ne-nil : (rule : LoggingRule) → IsRule unicode checker rule → conditions rule ≢ []
  conditions-ne-nil rule h = ground (arith, h.some_condition)

  filters-ne-nil :
      (rules : List LoggingRule)
      → All (IsRule unicode checker) rules
      → All (λ f. f ≢ []) (compute_log_filters unicode rules)
  unfolding compute_log_filters
  filters-ne-nil [] h = tt
  filters-ne-nil (rule ∷ rules) h =
      (filter-ne-nil unicode rule (conditions-ne-nil rule h.0), filters-ne-nil rules h.1)

  -- No filter of an accepted configuration is empty.
  pub accepted_filters-ne-nil :
      (config : RsyslogRelpConfig)
      → IsAccepted unicode checker config
      → All (λ f. f ≢ []) (compute_log_filters unicode config.logging_rules)
  accepted_filters-ne-nil config h = filters-ne-nil config.logging_rules h.rules
