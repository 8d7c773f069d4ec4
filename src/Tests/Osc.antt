-- ===== src/Tests/Osc.antt =====
-- The filters of the rsyslog configuration.
use gardener_extension_shoot.Common.{[], ◌∷◌, some, map, codes, All, ◌≡◌, ◌≢◌, refl}
use gardener_extension_shoot.Go.Strconv.{quote}
use gardener_extension_shoot.Go.Strconv.Decimal.{print_int, print_ℕ}
use gardener_extension_shoot.Validation.Accepts.{validate-eq-nil_iff}
use gardener_extension_shoot.Osc.Filters.{compute_log_filters}
use gardener_extension_shoot.Osc.Filters.Grammar.{conditions, read_filter}
use gardener_extension_shoot.Osc.Filters.RoundTrip.{read_filter-compute}
use gardener_extension_shoot.Osc.Filters.Accepted.{accepted_filters-ne-nil}
use gardener_extension_shoot.Field.{new_path}
use gardener_extension_shoot.Tests.Data.{latin, checker, config, rule, audit_rule, valid_config}

filter_text :
    compute_log_filters latin (rule ∷ [])
    ≡ codes
        "$programname == [\"kubelet\",\"audisp\\\\syslog\"] and $syslogseverity <= 4 and re_match($msg, \"a\\\"b\") == 1"
      ∷ []
unfolding compute_log_filters quote print_int print_ℕ
filter_text = refl

read_filter-compute_example :
    map read_filter (compute_log_filters latin (rule ∷ audit_rule ∷ []))
    ≡ map (λ r. some (conditions r)) (rule ∷ audit_rule ∷ [])
read_filter-compute_example = read_filter-compute latin (rule ∷ audit_rule ∷ [])

accepted_filters-ne-nil_example : All (λ f. f ≢ []) (compute_log_filters latin config.logging_rules)
accepted_filters-ne-nil_example =
    accepted_filters-ne-nil latin checker config
      ((validate-eq-nil_iff latin checker config (new_path "x" [])).0 valid_config)
