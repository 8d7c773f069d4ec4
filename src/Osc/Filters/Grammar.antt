-- ===== src/Osc/Filters/Grammar.antt =====
-- The grammar of a filter, as an independent reader: conditions joined by " and ".
use gardener_extension_shoot.Common.{
  String, ℕ, zero, suc, List, [], ◌∷◌, ◌++◌, map, Text, Option, none, some, codes, length,
}
use gardener_extension_shoot.Common.Int.{ℤ}
use gardener_extension_shoot.Api.{LoggingRule, MessageContent}
use gardener_extension_shoot.Go.Strconv.Reader.{unquote_before}
use gardener_extension_shoot.Go.Strconv.Decimal.{read_int}
use gardener_extension_shoot.Go.Strings.{strip_prefix}

-- A condition that a log message has to meet; texts as their code points.
pub data Condition : Type 0 where
  program_in : List Text → Condition
  severity_up_to : ℤ → Condition
  includes : Text → Condition
  excludes : Text → Condition

-- The conditions of a rule, in the order in which a filter states them.
abbrev pub program_conditions : List String → List Condition
program_conditions [] = []
program_conditions (name ∷ names) = program_in (map codes (name ∷ names)) ∷ []

abbrev pub severity_conditions : Option ℤ → List Condition
severity_conditions none = []
severity_conditions (some severity) = severity_up_to severity ∷ []

abbrev pub include_conditions : Option String → List Condition
include_conditions none = []
include_conditions (some regex) = includes (codes regex) ∷ []

abbrev pub exclude_conditions : Option String → List Condition
exclude_conditions none = []
exclude_conditions (some regex) = excludes (codes regex) ∷ []

abbrev pub message_conditions : Option MessageContent → List Condition
message_conditions none = []
message_conditions (some content) =
    include_conditions content.regex ++ exclude_conditions content.exclude

abbrev pub conditions : LoggingRule → List Condition
conditions rule =
    program_conditions rule.program_names
    ++ (severity_conditions rule.severity ++ message_conditions rule.message_content)

infixl 5 ◌>>=◌
abbrev pub ◌>>=◌ {ℓ κ} : {A : Type ℓ} {B : Type κ} → Option A → (A → Option B) → Option B
none >>= f = none
some a >>= f = f a

-- the first that succeeds
abbrev pub or_else {ℓ} : {A : Type ℓ} → Option A → Option A → Option A
or_else (some a) later = some a
or_else none later = later

-- quoted names up to the closing bracket, with a bound on their number
unfoldable pub read_names : ℕ → Text → Option (List Text × Text)
read_names zero s = none
read_names (suc n) s = unquote_before s >>= λ r.
    or_else (strip_prefix (codes "]") r.1 >>= λ rest. some (r.0 ∷ [], rest)) (
      strip_prefix (codes ",") r.1 >>= λ rest.
      read_names n rest >>= λ more. some (r.0 ∷ more.0, more.1))

unfoldable pub read_program_in : Text → Option (Condition × Text)
unfolding read_names
read_program_in s = strip_prefix (codes "$programname == [") s >>= λ rest.
    read_names (length rest) rest >>= λ r. some (program_in r.0, r.1)

unfoldable pub read_severity : Text → Option (Condition × Text)
read_severity s = strip_prefix (codes "$syslogseverity <= ") s >>= λ rest.
    some (severity_up_to (read_int rest).0, (read_int rest).1)

unfoldable pub read_match : Text → Option (Condition × Text)
read_match s = strip_prefix (codes "re_match($msg, ") s >>= λ rest. unquote_before rest >>= λ r.
    or_else (strip_prefix (codes ") == 1") r.1 >>= λ rest. some (includes r.0, rest))
      (strip_prefix (codes ") == 0") r.1 >>= λ rest. some (excludes r.0, rest))

unfoldable pub read_condition : Text → Option (Condition × Text)
read_condition s = or_else (read_program_in s) (or_else (read_severity s) (read_match s))

-- The conditions of a text, with a bound on their number.
unfoldable pub read_conditions : ℕ → Text → Option (List Condition)
unfolding read_condition
read_conditions zero s = none
read_conditions (suc n) [] = some []
read_conditions (suc n) (x ∷ s) = read_condition (x ∷ s) >>= λ r. elim r.1 [
  | [] ↦ some (r.0 ∷ [])
  | _ ∷ _ ↦ strip_prefix (codes " and ") r.1 >>= λ rest.
      read_conditions n rest >>= λ more. some (r.0 ∷ more)
]

-- At most four conditions.
unfoldable pub read_filter : Text → Option (List Condition)
unfolding read_conditions
read_filter s = read_conditions 5 s
