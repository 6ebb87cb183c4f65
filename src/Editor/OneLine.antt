-- ===== src/Editor/OneLine.antt =====
-- Every edit of policy.rs changes one line at most, and succeeds only when the file says what was asked.
use sentin_npu.Config.{text_eq, detector_key}
use sentin_npu.Core.DataKind
use sentin_npu.Core.DataKind.{DataKind}
use sentin_npu.Core.Decision
use sentin_npu.Core.Decision.{Decision}
use sentin_npu.Editor.File.{
  PolicyError, Parsed, Yaml, text_of, Edited, inserted, insert_detector, edit_detector, set_in,
  set_scalar, find_line, find_last_line, block, is_key_line, detector_line,
}
use sentin_npu.Editor.Laws.{
  ChangesOneLine, unchanged, insert_at-ChangesOneLine, rewritten-ChangesOneLine,
}
use sentin_npu.Editor.Lines.{has_key, looks_absolute, quote_yaml}
use sentin_npu.Editor.Operations.{
  same_mode, bool_eq, got, checked, read_back, guarded, set_detector_mode, set_audit_enabled,
  set_audit_path, set_syslog_enabled, set_syslog_address, too_strong, other_mode, relative_path,
  bool_word,
}
use sentin_npu.Prelude.{
  ℕ, suc, ◌-◌, ◌≡◌, refl, ◌⊎◌, inl, inr, Bool, true, false, List, [], ◌∷◌, Option, none, some,
  Bytes, Bool-cases, Option-cases, codes,
}

inserted-ChangesOneLine :
    (lines : List Bytes) (key : Bytes) (mode : Decision) (o : Option ℕ)
    → ChangesOneLine lines (inserted lines key mode o).0
inserted-ChangesOneLine lines key mode none = unchanged lines
inserted-ChangesOneLine lines key mode (some i) = insert_at-ChangesOneLine (suc i) _ lines

insert_detector-ChangesOneLine :
    (lines : List Bytes) (key : Bytes) (mode : Decision)
    → ChangesOneLine lines (insert_detector lines key mode).0
unfolding insert_detector
insert_detector-ChangesOneLine lines key mode =
    elim (Option-cases (block lines (codes "detectors" ∷ []))) [
      | inl absent ↦ rw (insert_detector, absent) (unchanged lines)
      | inr ((start, end), found) ↦
          rw (insert_detector, found)
            (inserted-ChangesOneLine lines key mode
              (find_last_line is_key_line lines start (end - start)))
    ]

edit_detector-ChangesOneLine :
    (lines : List Bytes) (key : Bytes) (mode : Decision) (o : Option ℕ)
    → ChangesOneLine lines (edit_detector lines key mode o).0
unfolding edit_detector
edit_detector-ChangesOneLine lines key mode none = insert_detector-ChangesOneLine lines key mode
edit_detector-ChangesOneLine lines key mode (some i) = rewritten-ChangesOneLine lines i _ _

set_in-ChangesOneLine :
    (lines parent : List Bytes) (key value : Bytes) (o : Option ℕ)
    → ChangesOneLine lines (set_in lines parent key value o).0
set_in-ChangesOneLine lines parent key value none = unchanged lines
set_in-ChangesOneLine lines parent key value (some i) = rewritten-ChangesOneLine lines i _ _

set_scalar-ChangesOneLine :
    (lines parent : List Bytes) (key value : Bytes)
    → ChangesOneLine lines (set_scalar lines parent key value).0
unfolding set_scalar
set_scalar-ChangesOneLine lines parent key value = elim (Option-cases (block lines parent)) [
  | inl absent ↦ rw (set_scalar, absent) (unchanged lines)
  | inr ((start, end), found) ↦
      rw (set_scalar, found)
        (set_in-ChangesOneLine lines parent key value
          (find_line (has_key key) lines start (end - start)))
]

-- The edits that an operator can make.
pub data Edit : Type 0 where
  detector_mode : DataKind → Decision → Edit
  audit_enabled : Bool → Edit
  audit_path : Bytes → Edit
  syslog_enabled : Bool → Edit
  syslog_address : Bytes → Edit

abbrev pub done : Yaml → List Bytes → Edit → Edited
done yaml lines (detector_mode kind mode) = set_detector_mode yaml lines kind mode
done yaml lines (audit_enabled enabled) = set_audit_enabled yaml lines enabled
done yaml lines (audit_path path) = set_audit_path yaml lines path
done yaml lines (syslog_enabled enabled) = set_syslog_enabled yaml lines enabled
done yaml lines (syslog_address address) = set_syslog_address yaml lines address

-- What the parsed file is to say, and what may be asked for: no mode above the ceiling of its kind, and
-- no relative path.
abbrev pub says : Edit → Parsed → Bool
says (detector_mode kind mode) p = same_mode (got p (detector_key kind)) mode
says (audit_enabled enabled) p = bool_eq p.audit.jsonl.enabled enabled
says (audit_path path) p = text_eq p.audit.jsonl.path path
says (syslog_enabled enabled) p = bool_eq p.audit.syslog_cef.enabled enabled
says (syslog_address address) p = text_eq p.audit.syslog_cef.address address

abbrev pub may : Edit → Bool
may (detector_mode kind mode) = Decision.ge (DataKind.max_decision kind) mode
may (audit_path path) = looks_absolute path
may _ = true

-- An edit that failed, or one that was allowed and whose text parses to what was asked for.
abbrev pub IsSettled : Yaml → (Parsed → Bool) → Bool → Edited → Type 0
IsSettled yaml wanted allowed r =
    ((error : PolicyError) × (r.1 ≡ some error))
    ⊎ ((p : Parsed) × (r.1 ≡ none)
        × (allowed ≡ true)
        × (yaml (text_of r.0) ≡ inr p)
        × (wanted p ≡ true))

-- The edit as a whole: one line at most, and settled.
pub record IsEdit (yaml : Yaml) (lines : List Bytes) (wanted : Parsed → Bool) (allowed : Bool)
    (r : Edited) : Type 0 where
  pub one_line : ChangesOneLine lines r.0
  pub settled : IsSettled yaml wanted allowed r

module _ (yaml : Yaml) (lines : List Bytes) (wanted : Parsed → Bool)
    (reads_as : Parsed → Bytes) where
  checked-IsSettled :
      (edited : List Bytes) (o : Bytes ⊎ Parsed)
      → yaml (text_of edited) ≡ o
      → IsSettled yaml wanted true (checked wanted reads_as edited o)
  checked-IsSettled edited (inl message) e = inl (_, refl)
  checked-IsSettled edited (inr p) e = elim (Bool-cases (wanted p)) [
    | inl good ↦ rw good (inr (p, refl, refl, e, good))
    | inr bad ↦ rw bad (inl (_, refl))
  ]

  checked-lines :
      (edited : List Bytes) (o : Bytes ⊎ Parsed) → (checked wanted reads_as edited o).0 ≡ edited
  checked-lines edited (inl message) = refl
  checked-lines edited (inr p) = elim (Bool-cases (wanted p)) [
    | inl good ↦ rw good refl
    | inr bad ↦ rw bad refl
  ]

  read_back-IsEdit :
      (r : Edited)
      → ChangesOneLine lines r.0
      → IsEdit yaml lines wanted true (read_back yaml wanted reads_as r)
  read_back-IsEdit (edited, some error) h = record { one_line = h; settled = inl (error, refl) }
  read_back-IsEdit (edited, none) h = record {
    one_line = rw (checked-lines edited (yaml (text_of edited))) h;
    settled = checked-IsSettled edited (yaml (text_of edited)) refl;
  }

scalar-IsEdit :
    (yaml : Yaml) (lines : List Bytes) (wanted : Parsed → Bool) (reads_as : Parsed → Bytes)
    (parent : List Bytes) (key value : Bytes)
    → IsEdit yaml lines wanted true
        (read_back yaml wanted reads_as (set_scalar lines parent key value))
scalar-IsEdit yaml lines wanted reads_as parent key value =
    read_back-IsEdit yaml lines wanted reads_as (set_scalar lines parent key value)
      (set_scalar-ChangesOneLine lines parent key value)

guarded-IsEdit :
    (yaml : Yaml) (lines : List Bytes) (wanted : Parsed → Bool) (allowed : Bool)
    (error : PolicyError) (r : Edited)
    → IsEdit yaml lines wanted true r
    → IsEdit yaml lines wanted allowed (guarded allowed error lines r)
guarded-IsEdit yaml lines wanted true error r h = h
guarded-IsEdit yaml lines wanted false error r h = record {
  one_line = unchanged lines;
  settled = inl (error, refl);
}

-- Whatever the edit and the file, with any parser: one line at most is changed, and the edit fails, or it
-- is one that may be asked for and the text that it leaves parses and says what was asked for.
pub done-IsEdit :
    (yaml : Yaml) (lines : List Bytes) (edit : Edit)
    → IsEdit yaml lines (says edit) (may edit) (done yaml lines edit)
unfolding set_detector_mode set_audit_enabled set_audit_path set_syslog_enabled set_syslog_address
done-IsEdit yaml lines (detector_mode kind mode) =
    guarded-IsEdit yaml lines (says (detector_mode kind mode)) (may (detector_mode kind mode))
      (too_strong kind mode) _
      (read_back-IsEdit yaml lines (says (detector_mode kind mode)) (other_mode kind mode) _ (
        edit_detector-ChangesOneLine lines (detector_key kind) mode
          (detector_line lines (detector_key kind))))
done-IsEdit yaml lines (audit_enabled enabled) =
    scalar-IsEdit yaml lines (says (audit_enabled enabled)) (λ p. codes "audit.jsonl.enabled")
      (codes "audit" ∷ codes "jsonl" ∷ []) (codes "enabled") (bool_word enabled)
done-IsEdit yaml lines (audit_path path) =
    guarded-IsEdit yaml lines (says (audit_path path)) (may (audit_path path)) relative_path _ (
      scalar-IsEdit yaml lines (says (audit_path path)) (λ p. codes "audit.jsonl.path")
        (codes "audit" ∷ codes "jsonl" ∷ []) (codes "path") (quote_yaml path))
done-IsEdit yaml lines (syslog_enabled enabled) =
    scalar-IsEdit yaml lines (says (syslog_enabled enabled)) (λ p. codes "audit.syslog_cef.enabled")
      (codes "audit" ∷ codes "syslog_cef" ∷ []) (codes "enabled") (bool_word enabled)
done-IsEdit yaml lines (syslog_address address) =
    scalar-IsEdit yaml lines (says (syslog_address address)) (λ p. codes "audit.syslog_cef.address")
      (codes "audit" ∷ codes "syslog_cef" ∷ []) (codes "address") address
