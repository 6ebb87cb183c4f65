-- ===== src/Editor/Operations.antt =====
-- The operations of `ConfigFile` that read the whole file back: a guard, the edit, and the check that
-- the edited text parses and says what was asked for.
use sentin_npu.Config.{DetectorRule, detector_key, get, text_eq}
use sentin_npu.Core.DataKind
use sentin_npu.Core.DataKind.{DataKind}
use sentin_npu.Core.Decision
use sentin_npu.Core.Decision.{Decision, observed, advised, masked, blocked}
use sentin_npu.Editor.File.{
  PolicyError, parse_error, shape, not_applied, Parsed, Yaml, split_lines, text_of, Edited,
  detector_line, edit_detector, set_scalar,
}
use sentin_npu.Editor.Lines.{mode_word, why_not, looks_absolute, quote_yaml}
use sentin_npu.Prelude.{
  Bool, true, false, not, ◌⊎◌, inl, inr, List, [], ◌∷◌, ◌++◌, Option, none, some, if◌then◌else◌,
  Bytes, codes,
}

-- `from_text`: the lines, if the text parses.
abbrev pub lines_if : Bytes → Bytes ⊎ Parsed → PolicyError ⊎ List Bytes
lines_if text (inl message) = inl (parse_error message)
lines_if text (inr parsed) = inr (split_lines text)

unfoldable pub from_text : Yaml → Bytes → PolicyError ⊎ List Bytes
unfolding split_lines
from_text yaml text = lines_if text (yaml text)

-- The words of `{:?}`.
abbrev pub debug_mode : Decision → Bytes
debug_mode observed = codes "Observed"
debug_mode advised = codes "Advised"
debug_mode masked = codes "Masked"
debug_mode blocked = codes "Blocked"

abbrev pub debug_option : Option Decision → Bytes
debug_option none = codes "None"
debug_option (some mode) = codes "Some(" ++ debug_mode mode ++ codes ")"

abbrev pub same_mode : Option Decision → Decision → Bool
same_mode none mode = false
same_mode (some got) mode = Decision.eq got mode

abbrev pub bool_eq : Bool → Bool → Bool
bool_eq true b = b
bool_eq false b = not b

abbrev pub bool_word : Bool → Bytes
bool_word true = codes "true"
bool_word false = codes "false"

-- `parsed()?.detectors.get(key).map(|rule| rule.mode)`
abbrev pub mode_of_rule : Option DetectorRule → Option Decision
mode_of_rule none = none
mode_of_rule (some rule) = some rule.mode

unfoldable pub got : Parsed → Bytes → Option Decision
unfolding get
got parsed key = mode_of_rule (get key parsed.config.detectors)

-- An edit that was made stands in the lines whatever reading them back gives.
abbrev pub checked : (Parsed → Bool) → (Parsed → Bytes) → List Bytes → Bytes ⊎ Parsed → Edited
checked says reads_as lines (inl message) = (lines, some (parse_error message))
checked says reads_as lines (inr parsed) =
    if says parsed then (lines, none) else (lines, some (not_applied (reads_as parsed)))

abbrev pub read_back : Yaml → (Parsed → Bool) → (Parsed → Bytes) → Edited → Edited
read_back yaml says reads_as (lines, some error) = (lines, some error)
read_back yaml says reads_as (lines, none) = checked says reads_as lines (yaml (text_of lines))

-- A guard that fails leaves the lines alone.
abbrev pub guarded : Bool → PolicyError → List Bytes → Edited → Edited
guarded allowed error lines edited = if allowed then edited else (lines, some error)

abbrev pub too_strong : DataKind → Decision → PolicyError
too_strong kind mode =
    shape (detector_key kind ++ codes " cannot " ++ mode_word mode ++ codes ": " ++ why_not kind)

abbrev pub other_mode : DataKind → Decision → Parsed → Bytes
other_mode kind mode p =
    detector_key kind
    ++ codes " reads back as "
    ++ debug_option (got p (detector_key kind))
    ++ codes ", not "
    ++ debug_mode mode

abbrev pub relative_path : PolicyError
relative_path = shape (
    codes "the audit path must be absolute: a relative one resolves against the service's "
    ++ codes "working directory, so the file is written somewhere nobody is looking and nothing "
    ++ codes "reports an error")

module _ (yaml : Yaml) where
  unfoldable pub set_detector_mode : List Bytes → DataKind → Decision → Edited
  unfolding DataKind.max_decision detector_key edit_detector text_of got
  set_detector_mode lines kind mode =
      let key = detector_key kind in
      guarded (Decision.ge (DataKind.max_decision kind) mode) (too_strong kind mode) lines (
        read_back yaml (λ p. same_mode (got p key) mode) (other_mode kind mode)
          (edit_detector lines key mode (detector_line lines key)))

  unfoldable pub set_audit_enabled : List Bytes → Bool → Edited
  unfolding set_scalar text_of
  set_audit_enabled lines enabled =
      read_back yaml (λ p. bool_eq p.audit.jsonl.enabled enabled) (λ p. codes "audit.jsonl.enabled")
        (set_scalar lines (codes "audit" ∷ codes "jsonl" ∷ []) (codes "enabled")
          (bool_word enabled))

  unfoldable pub set_audit_path : List Bytes → Bytes → Edited
  unfolding set_scalar text_of quote_yaml looks_absolute
  set_audit_path lines path = guarded (looks_absolute path) relative_path lines (
      read_back yaml (λ p. text_eq p.audit.jsonl.path path) (λ p. codes "audit.jsonl.path")
        (set_scalar lines (codes "audit" ∷ codes "jsonl" ∷ []) (codes "path") (quote_yaml path)))

  unfoldable pub set_syslog_enabled : List Bytes → Bool → Edited
  unfolding set_scalar text_of
  set_syslog_enabled lines enabled =
      read_back yaml (λ p. bool_eq p.audit.syslog_cef.enabled enabled)
        (λ p. codes "audit.syslog_cef.enabled")
        (set_scalar lines (codes "audit" ∷ codes "syslog_cef" ∷ []) (codes "enabled")
          (bool_word enabled))

  unfoldable pub set_syslog_address : List Bytes → Bytes → Edited
  unfolding set_scalar text_of
  set_syslog_address lines address =
      read_back yaml (λ p. text_eq p.audit.syslog_cef.address address)
        (λ p. codes "audit.syslog_cef.address")
        (set_scalar lines (codes "audit" ∷ codes "syslog_cef" ∷ []) (codes "address") address)
