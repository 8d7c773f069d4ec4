-- ===== src/Verifier/Laws.antt =====
-- The command of generateLogs has one part for each entry.
use mathlib.Core.List.{reverse, reverse-append, reverse-reverse}
use gardener_extension_shoot.Common.{
  List, [], ◌∷◌, ◌++◌, map, Text, codes, Bool-cases, inl, inr, ◌≡◌, refl, sym, ap, ◌∙◌,
  append_assoc, append-nil, if◌then◌else◌,
}
use gardener_extension_shoot.Go.Strings.{join, strip_prefix}
use gardener_extension_shoot.Utils.{trim_suffix, trim_suffix-append}
use gardener_extension_shoot.Verifier.{
  LogEntry, Verifier, log_command, add_log_commands, audit_command, logs_command,
}

abbrev pub separator : Text
separator = codes "; "

-- the parts with a separator behind each
abbrev terminated : List Text → Text
terminated [] = []
terminated (p ∷ ps) = (p ++ separator) ++ terminated ps

add_log_commands-eq-append :
    (command : Text) (entries : List LogEntry)
    → add_log_commands command entries ≡ command ++ terminated (map log_command entries)
unfolding add_log_commands
add_log_commands-eq-append command [] = sym (append-nil command)
add_log_commands-eq-append command (entry ∷ entries) =
    add_log_commands-eq-append (command ++ (log_command entry ++ separator)) entries
    ∙ append_assoc command (log_command entry ++ separator) (terminated (map log_command entries))

-- What stands behind the separators ends the joined text.
terminated-append :
    (ps : List Text) (last : Text) → terminated ps ++ last ≡ join (ps ++ last ∷ []) separator
unfolding join
terminated-append [] last = refl
terminated-append (p ∷ []) last =
    append_assoc (p ++ separator) [] last ∙ append_assoc p separator last
terminated-append (p ∷ q ∷ ps) last =
    append_assoc (p ++ separator) (terminated (q ∷ ps)) last
    ∙ ap (λ t. (p ++ separator) ++ t) (terminated-append (q ∷ ps) last)
    ∙ append_assoc p separator (join (q ∷ (ps ++ last ∷ [])) separator)

terminated-eq-join :
    (p : Text) (ps : List Text) → terminated (p ∷ ps) ≡ join (p ∷ ps) separator ++ separator
unfolding join
terminated-eq-join p [] = append-nil (p ++ separator)
terminated-eq-join p (q ∷ ps) =
    let rest : Text = join (q ∷ ps) separator in
    ap (λ t. (p ++ separator) ++ t) (terminated-eq-join q ps)
    ∙ sym (append_assoc (p ++ separator) rest separator)
    ∙ ap (λ t. t ++ separator) (append_assoc p separator rest)

trim_suffix-audit : (s : Text) → trim_suffix (s ++ audit_command) separator ≡ s ++ audit_command
unfolding trim_suffix strip_prefix
trim_suffix-audit s =
    rw (reverse-append s audit_command)
      (ap reverse (sym (reverse-append s audit_command)) ∙ reverse-reverse (s ++ audit_command))

trim_suffix-terminated :
    (ps : List Text) → trim_suffix (terminated ps) separator ≡ join ps separator
unfolding join trim_suffix strip_prefix
trim_suffix-terminated [] = refl
trim_suffix-terminated (p ∷ ps) =
    ap (λ t. trim_suffix t separator) (terminated-eq-join p ps)
    ∙ trim_suffix-append (join (p ∷ ps) separator) separator

-- The command of generateLogs consists of one part for each entry, in their order, and of one that
-- raises an audit event if that is tested, with a separator between any two and none at the end.
pub logs_command-eq-join :
    (v : Verifier) (entries : List LogEntry)
    → logs_command v entries
      ≡ join
          (map log_command entries ++ (if v.test_audit_logging then audit_command ∷ [] else []))
          separator
unfolding logs_command
logs_command-eq-join v entries = elim (Bool-cases v.test_audit_logging) [
  | inl tested ↦
      rw (tested, add_log_commands-eq-append [] entries)
        (trim_suffix-audit (terminated (map log_command entries))
          ∙ terminated-append (map log_command entries) audit_command)
  | inr untested ↦
      rw (untested, add_log_commands-eq-append [] entries)
        (trim_suffix-terminated (map log_command entries)
          ∙ ap (λ ps. join ps separator) (sym (append-nil (map log_command entries))))
]
