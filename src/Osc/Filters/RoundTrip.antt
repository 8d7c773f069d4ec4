-- ===== src/Osc/Filters/RoundTrip.antt =====
-- Every filter is read back as the conditions of its rule.
use gardener_extension_shoot.Common.{
  String, ℕ, zero, suc, ◌<◌, List, [], ◌∷◌, ◌++◌, map, Text, Option, none, some, codes, length,
  length-append, append_assoc, append-nil, ◌≡◌, ◌≢◌, ◌∙◌, ap, sym, refl, arith,
}
use mathlib.Core.Path.{ap₂}
use gardener_extension_shoot.Common.Int.{ℤ}
use gardener_extension_shoot.Api.{LoggingRule, MessageContent}
use gardener_extension_shoot.Go.Strconv.{Unicode, quote}
use gardener_extension_shoot.Go.Strconv.Decimal.{EndsNumber}
use gardener_extension_shoot.Go.Strconv.Prefix.{
  unquote-quote_append, length-quote, read_int-print_append,
}
use gardener_extension_shoot.Go.Strings.{join, strip_prefix}
use gardener_extension_shoot.Osc.Filters.{
  program_name_filters, severity_filters, include_filters, exclude_filters, message_filters,
  current_filters, compute_log_filters,
}
use gardener_extension_shoot.Osc.Filters.Grammar.{
  Condition, program_in, conditions, program_conditions, severity_conditions, include_conditions,
  exclude_conditions, message_conditions, read_names, read_program_in, read_severity, read_match,
  read_condition, read_conditions, read_filter,
}

module _ (unicode : Unicode) where
  -- the quoted names of a list, joined
  abbrev joined : List String → Text
  joined names = join (map (quote unicode) names) (codes ",")

  read_names-joined :
      (n : ℕ) (name : String) (names : List String) (rest : Text)
      → length names < n
      → read_names n (joined (name ∷ names) ++ (codes "]" ++ rest))
        ≡ some (map codes (name ∷ names), rest)
  unfolding read_names join strip_prefix
  read_names-joined zero name names rest h = elim h [ ]
  read_names-joined (suc n) name [] rest h =
      rw (unquote-quote_append unicode name (codes "]" ++ rest))
  read_names-joined (suc n) name (next ∷ names) rest h =
      rw (append_assoc, unquote-quote_append unicode name)
        (rw (read_names-joined n next names rest (omega arith)))

  length-joined :
      (name : String) (names : List String) → length names < length (joined (name ∷ names))
  unfolding join
  length-joined name [] = omega (arith, length-quote unicode name)
  length-joined name (next ∷ names) = omega (
    arith,
    length-quote unicode name,
    length-joined next names,
    length-append (quote unicode name) (codes "," ++ joined (next ∷ names)),
  )

  -- A text that is the print of a condition: it is read back before any text that ends a number.
  record Prints (t : Text) (c : Condition) : Type 0 where
    given : t ≢ []
    reads : (rest : Text) → EndsNumber rest → read_condition (t ++ rest) ≡ some (c, rest)

  abbrev AllPrint : List Text → List Condition → Type 0
  AllPrint [] [] = Unit
  AllPrint (t ∷ ts) (c ∷ cs) = Prints t c × AllPrint ts cs
  AllPrint [] (c ∷ cs) = ⊥
  AllPrint (t ∷ ts) [] = ⊥

  AllPrint-append :
      (ts us : List Text) (cs ds : List Condition)
      → AllPrint ts cs
      → AllPrint us ds
      → AllPrint (ts ++ us) (cs ++ ds)
  AllPrint-append [] us [] ds h k = k
  AllPrint-append (t ∷ ts) us (c ∷ cs) ds h k = (h.0, AllPrint-append ts us cs ds h.1 k)
  AllPrint-append [] us (c ∷ cs) ds h k = absurd h
  AllPrint-append (t ∷ ts) us [] ds h k = absurd h

  read_program_in-joined :
      (name : String) (names : List String) (rest : Text)
      → read_program_in
          (codes "$programname == [" ++ (joined (name ∷ names) ++ (codes "]" ++ rest)))
        ≡ some (program_in (map codes (name ∷ names)), rest)
  unfolding read_program_in strip_prefix
  read_program_in-joined name names rest =
      rw (read_names-joined _ name names rest (shorter name names (codes "]" ++ rest)))
    where
      shorter :
          (name : String) (names : List String) (t : Text)
          → length names < length (joined (name ∷ names) ++ t)
      shorter name names t =
          omega (arith, length-joined name names, length-append (joined (name ∷ names)) t)

  program_name_filters-AllPrint :
      (names : List String)
      → AllPrint (program_name_filters unicode names) (program_conditions names)
  unfolding program_name_filters read_condition
  program_name_filters-AllPrint [] = tt
  program_name_filters-AllPrint (name ∷ names) = (
    record {
      given = (cc);
      reads = λ rest h. rw (append_assoc, append_assoc, read_program_in-joined name names rest);
    },
    tt,
  )

  severity_filters-AllPrint :
      (severity : Option ℤ)
      → AllPrint (severity_filters unicode severity) (severity_conditions severity)
  unfolding severity_filters read_condition read_program_in read_severity strip_prefix
  severity_filters-AllPrint none = tt
  severity_filters-AllPrint (some n) =
      (record { given = (cc); reads = λ rest h. rw (read_int-print_append n rest h) }, tt)

  include_filters-AllPrint :
      (regex : Option String) → AllPrint (include_filters unicode regex) (include_conditions regex)
  unfolding include_filters read_condition read_program_in read_severity read_match strip_prefix
  include_filters-AllPrint none = tt
  include_filters-AllPrint (some regex) = (
    record {
      given = (cc);
      reads = λ rest h. rw (append_assoc, unquote-quote_append unicode regex);
    },
    tt,
  )

  exclude_filters-AllPrint :
      (regex : Option String) → AllPrint (exclude_filters unicode regex) (exclude_conditions regex)
  unfolding exclude_filters read_condition read_program_in read_severity read_match strip_prefix
  exclude_filters-AllPrint none = tt
  exclude_filters-AllPrint (some regex) = (
    record {
      given = (cc);
      reads = λ rest h. rw (append_assoc, unquote-quote_append unicode regex);
    },
    tt,
  )

  message_filters-AllPrint :
      (content : Option MessageContent)
      → AllPrint (message_filters unicode content) (message_conditions content)
  unfolding message_filters
  message_filters-AllPrint none = tt
  message_filters-AllPrint (some content) =
      AllPrint-append _ _ _ _ (include_filters-AllPrint content.regex)
        (exclude_filters-AllPrint content.exclude)

  current_filters-AllPrint :
      (rule : LoggingRule) → AllPrint (current_filters unicode rule) (conditions rule)
  unfolding current_filters
  current_filters-AllPrint rule =
      AllPrint-append _ _ _ _ (program_name_filters-AllPrint rule.program_names) (
        AllPrint-append _ _ _ _ (severity_filters-AllPrint rule.severity)
          (message_filters-AllPrint rule.message_content))

  read_conditions-join :
      (n : ℕ) (ts : List Text) (cs : List Condition)
      → AllPrint ts cs
      → length ts < n
      → read_conditions n (join ts (codes " and ")) ≡ some cs
  unfolding read_conditions join strip_prefix
  read_conditions-join zero ts cs h k = elim k [ ]
  read_conditions-join (suc n) [] [] h k = refl
  read_conditions-join (suc n) [] (c ∷ cs) h k = absurd h
  read_conditions-join (suc n) (t ∷ ts) [] h k = absurd h
  read_conditions-join (suc n) ([] ∷ ts) (c ∷ cs) h k = absurd (h.0.given refl)
  read_conditions-join (suc n) ((x ∷ t) ∷ []) (c ∷ []) h k =
      let e : read_condition (x ∷ t) ≡ some (c, []) =
        ap read_condition (sym (append-nil (x ∷ t))) ∙ h.0.reads [] tt in
      rw e
  read_conditions-join (suc n) ((x ∷ t) ∷ []) (c ∷ d ∷ cs) h k = absurd h.1
  read_conditions-join (suc n) ((x ∷ t) ∷ u ∷ us) (c ∷ cs) h k =
      let rest = codes " and " ++ join (u ∷ us) (codes " and ") in
      rw (h.0.reads rest refl) (rw (read_conditions-join n (u ∷ us) cs h.1 (omega arith)))

  -- at most four conditions
  length-current_filters : (rule : LoggingRule) → length (current_filters unicode rule) < 5
  unfolding current_filters program_name_filters severity_filters message_filters include_filters
      exclude_filters
  length-current_filters rule = ground arith

  -- Each filter is read back as the conditions of its rule.
  pub read_filter-compute :
      (rules : List LoggingRule)
      → map read_filter (compute_log_filters unicode rules) ≡ map (λ r. some (conditions r)) rules
  unfolding compute_log_filters read_filter
  read_filter-compute [] = refl
  read_filter-compute (rule ∷ rules) =
      ap₂ (λ x y. x ∷ y)
        (read_conditions-join 5 (current_filters unicode rule) (conditions rule)
          (current_filters-AllPrint rule) (length-current_filters rule))
        (read_filter-compute rules)

  join-ne-nil :
      (ts : List Text) (cs : List Condition) (sep : Text)
      → AllPrint ts cs
      → cs ≢ []
      → join ts sep ≢ []
  unfolding join
  join-ne-nil [] [] sep h k = absurd (k refl)
  join-ne-nil [] (c ∷ cs) sep h k = absurd h
  join-ne-nil (t ∷ ts) [] sep h k = absurd (k refl)
  join-ne-nil (t ∷ []) (c ∷ cs) sep h k = h.0.given
  join-ne-nil ([] ∷ u ∷ us) (c ∷ cs) sep h k = absurd (h.0.given refl)
  join-ne-nil ((x ∷ t) ∷ u ∷ us) (c ∷ cs) sep h k = λ e. cc

  -- A rule with a condition has a filter that is not empty.
  pub filter-ne-nil :
      (rule : LoggingRule)
      → conditions rule ≢ []
      → join (current_filters unicode rule) (codes " and ") ≢ []
  filter-ne-nil rule = join-ne-nil _ (conditions rule) _ (current_filters-AllPrint rule)
