-- ===== src/Editor/Lines.antt =====
-- What policy.rs reads from one line and writes to it. The carriage return of a CRLF file is the last
-- byte of its line.
use sentin_npu.Config.{starts_with, text_eq}
use sentin_npu.Core.DataKind
use sentin_npu.Core.DataKind.{DataKind}
use sentin_npu.Core.Decision.{Decision, observed, advised, masked, blocked}
use sentin_npu.Core.Layer.{Layer, ner}
use sentin_npu.Audit.Cef.{replace}
use sentin_npu.Trim.{trim_by, trim_start, trim_end, trim}
use sentin_npu.Prelude.{
  ℕ, suc, ◌+◌, ◌-◌, Bool, false, ◌&&◌, ◌||◌, not, [], ◌∷◌, ◌++◌, reverse, Option, none, some, ◌==◌,
  if◌then◌else◌, all, is_empty, length, take, drop, get_or, Bytes, codes, is_ascii_alphanumeric,
  is_ascii_alphabetic,
}

-- `str::find`, by a text and by a test of one byte.
unfoldable pub index_of : Bytes → Bytes → Option ℕ
unfolding starts_with
index_of needle [] = if is_empty needle then some 0 else none
index_of needle (b ∷ s) =
    if starts_with (b ∷ s) needle
    then some 0
    else elim (index_of needle s) [ none ↦ none | some i ↦ some (suc i) ]

unfoldable pub position : (ℕ → Bool) → Bytes → Option ℕ
position p [] = none
position p (b ∷ s) =
    if p b then some 0 else elim (position p s) [ none ↦ none | some i ↦ some (suc i) ]

abbrev pub ends_with : Bytes → ℕ → Bool
ends_with s b = elim (reverse s) [ [] ↦ false | ◌∷◌ last _ ↦ last == b ]

abbrev pub is_key_byte : ℕ → Bool
is_key_byte b = is_ascii_alphanumeric b || b == b'_'

abbrev pub key_of : Bytes → Bytes → Option (Bytes × Bytes)
key_of indent key = if is_empty key || not (all is_key_byte key) then none else some (indent, key)

-- The indentation and the key of a `key:` line.
unfoldable pub line_key : Bytes → Option (Bytes × Bytes)
unfolding position trim_by starts_with
line_key line =
    let trimmed = trim_start line in
    if is_empty trimmed || (starts_with trimmed (codes "#") || starts_with trimmed (codes "-"))
    then none
    else elim (position (λ b. b == b':') trimmed) [
      | none ↦ none
      | some colon ↦ key_of (take (length line - length trimmed) line) (trim (take colon trimmed))
    ]

abbrev pub has_key : Bytes → Bytes → Bool
has_key key line = elim (line_key line) [ none ↦ false | some (indent, k) ↦ text_eq k key ]

abbrev pub ends_value : ℕ → Bool
ends_value b = b == b',' || (b == b'}' || (b == b'#' || b == 13))

abbrev pub or_length : Bytes → Option ℕ → ℕ
or_length s none = length s
or_length s (some i) = i

abbrev pub span_of : ℕ → Bytes → Option (ℕ × ℕ × Bytes)
span_of start value = if is_empty value then none else some (start, start + length value, value)

-- Where the value of `mode:` begins and ends, and what it is.
unfoldable pub mode_span : Bytes → Option (ℕ × ℕ × Bytes)
unfolding index_of position trim_by
mode_span line = elim (index_of (codes "mode:") line) [
  | none ↦ none
  | some i ↦
      let at = i + 5 in
      let rest = drop at line in
      let start = at + (length rest - length (trim_start rest)) in
      let value = drop start line in
      span_of start (trim_end (take (or_length value (position ends_value value)) value))
]

abbrev pub is_one_of : Bytes → Bytes → Bytes → Bool
is_one_of value a b = text_eq value a || text_eq value b

abbrev pub mode_of : Bytes → Option Decision
mode_of value =
    if is_one_of value (codes "observe") (codes "observed")
    then some observed
    else if is_one_of value (codes "advise") (codes "advised")
    then some advised
    else if is_one_of value (codes "mask") (codes "masked")
    then some masked
    else if is_one_of value (codes "block") (codes "blocked")
    then some blocked
    else none

unfoldable pub parse_mode : Bytes → Option Decision
unfolding mode_span
parse_mode line = elim (mode_span line) [ none ↦ none | some (start, end, value) ↦ mode_of value ]

abbrev pub mode_word : Decision → Bytes
mode_word observed = codes "observe"
mode_word advised = codes "advise"
mode_word masked = codes "mask"
mode_word blocked = codes "block"

unfoldable pub replace_mode : Bytes → Decision → Option Bytes
unfolding mode_span
replace_mode line mode = elim (mode_span line) [
  | none ↦ none
  | some (start, end, value) ↦ some (take start line ++ mode_word mode ++ drop end line)
]

abbrev pub why_not_of : Layer → Bytes
why_not_of ner =
    codes "it comes from the NER model, which is probabilistic, so it may advise or mask but never "
    ++ codes "refuse a request"
why_not_of _ =
    codes "it is matched by shape alone, with no checksum to verify it, and shape is not enough to "
    ++ codes "refuse somebody's request on"

abbrev pub why_not : DataKind → Bytes
why_not kind = why_not_of (DataKind.layer kind)

-- The first `#` behind a space or a tab; `before` is the byte in front.
unfoldable pub comment_at : ℕ → Bytes → Option ℕ
comment_at before [] = none
comment_at before (b ∷ s) =
    if b == b'#' && (before == 32 || before == 9)
    then some 0
    else elim (comment_at b s) [ none ↦ none | some i ↦ some (suc i) ]

-- What stands behind a value and is kept: a comment with the space in front of it, or the carriage
-- return. The search begins at the second byte.
unfoldable pub comment_tail : Bytes → Bytes
unfolding comment_at trim_by
comment_tail [] = []
comment_tail (b ∷ s) = elim (comment_at b s) [
  | none ↦ if ends_with (b ∷ s) 13 then 13 ∷ [] else []
  | some i ↦ drop (length (trim_end (take (suc i) (b ∷ s)))) (b ∷ s)
]

-- On either platform. What the standard library takes for absolute, these tests take for it too.
unfoldable pub looks_absolute : Bytes → Bool
unfolding starts_with
looks_absolute path =
    starts_with path (codes "/")
    || (starts_with path (codes "\\")
        || (is_ascii_alphabetic (get_or path 0 0)
            && (get_or path 1 0 == b':' && (get_or path 2 0 == b'\\' || get_or path 2 0 == b'/'))))

unfoldable pub quote_yaml : Bytes → Bytes
unfolding replace
quote_yaml value =
    b'"' ∷ replace b'"' (codes "\\\"") (replace b'\\' (codes "\\\\") value) ++ (b'"' ∷ [])
