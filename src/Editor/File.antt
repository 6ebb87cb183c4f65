-- ===== src/Editor/File.antt =====
-- `ConfigFile` of policy.rs. An operation that changes the file returns the lines that it leaves, also
-- when it fails, and its error. The YAML parser is a parameter.
use sentin_npu.Config.{Config, Audit, detector_key, text_eq, starts_with}
use sentin_npu.Core.DataKind
use sentin_npu.Core.DataKind.{DataKind, all_kinds}
use sentin_npu.Core.Decision.{Decision}
use sentin_npu.Core.Layer.{Layer, ner}
use sentin_npu.Editor.Lines.{
  line_key, has_key, position, ends_with, parse_mode, replace_mode, mode_word, comment_tail,
}
use sentin_npu.Trim.{trim_start, trim}
use sentin_npu.Prelude.{
  ℕ, zero, suc, ◌+◌, ◌-◌, Bool, true, false, ◌&&◌, ◌||◌, ◌⊎◌, List, [], ◌∷◌, ◌++◌, Option, none,
  some, ltb, leb, ◌==◌, if◌then◌else◌, find, is_empty, length, take, drop, get_or, Bytes, codes,
}

pub data PolicyError : Type 0 where
  parse_error shape not_applied : Bytes → PolicyError

-- A configuration as the parser returns it.
pub record Parsed : Type 0 where
  pub config : Config
  pub audit : Audit

-- The parser; an error is its message.
abbrev pub Yaml : Type 0
Yaml = Bytes → Bytes ⊎ Parsed

-- `split('\n')` and `join("\n")`
abbrev pub on_first : ℕ → List Bytes → List Bytes
on_first b [] = (b ∷ []) ∷ []
on_first b (line ∷ lines) = (b ∷ line) ∷ lines

unfoldable pub split_lines : Bytes → List Bytes
split_lines [] = [] ∷ []
split_lines (b ∷ s) = let rest = split_lines s in if b == 10 then [] ∷ rest else on_first b rest

unfoldable pub text_of : List Bytes → Bytes
text_of [] = []
text_of (line ∷ []) = line
text_of (line ∷ next ∷ lines) = line ++ (10 ∷ text_of (next ∷ lines))

-- The first line of so many that has a property, and the last.
unfoldable pub find_line : (Bytes → Bool) → List Bytes → ℕ → ℕ → Option ℕ
find_line p lines start zero = none
find_line p lines start (suc count) =
    let later = find_line p lines (suc start) count in
    if p (get_or lines start []) then some start else later

unfoldable pub find_last_line : (Bytes → Bool) → List Bytes → ℕ → ℕ → Option ℕ
find_last_line p lines start zero = none
find_last_line p lines start (suc count) =
    let earlier = find_last_line p lines start count in
    if p (get_or lines (start + count) []) then some (start + count) else earlier

abbrev pub is_deeper : Option ℕ → ℕ → Bool
is_deeper none indent = true
is_deeper (some d) indent = ltb d indent

abbrev pub is_child : Bytes → Option ℕ → Bytes → Bool
is_child key depth line = elim (line_key line) [
  | none ↦ false
  | some (indent, k) ↦ text_eq k key && is_deeper depth (length indent)
]

abbrev pub indent_of : Bytes → ℕ
indent_of line = elim (line_key line) [ none ↦ 0 | some (indent, k) ↦ length indent ]

-- Neither blank nor a comment, and indented no further.
abbrev pub ends_block : ℕ → Bytes → Bool
ends_block indent line =
    if is_empty (trim line) || starts_with (trim line) (codes "#")
    then false
    else leb (length line - length (trim_start line)) indent

abbrev pub or_end : ℕ → Option ℕ → ℕ
or_end end none = end
or_end end (some i) = i

unfoldable pub block_in : List Bytes → List Bytes → ℕ → ℕ → Option ℕ → Option (ℕ × ℕ)
unfolding find_line
block_in lines [] start end depth = some (start, end)
block_in lines (key ∷ path) start end depth =
    elim (find_line (is_child key depth) lines start (end - start)) [
      | none ↦ none
      | some index ↦
          let indent = indent_of (get_or lines index []) in
          block_in lines path (suc index)
            (or_end end (find_line (ends_block indent) lines (suc index) (end - suc index)))
            (some indent)
    ]

unfoldable pub block : List Bytes → List Bytes → Option (ℕ × ℕ)
unfolding block_in
block lines path = block_in lines path 0 (length lines) none

-- The first line of a block with a key.
unfoldable pub line_in : List Bytes → List Bytes → Bytes → Option ℕ
unfolding block find_line
line_in lines path key = elim (block lines path) [
  | none ↦ none
  | some (start, end) ↦ find_line (has_key key) lines start (end - start)
]

abbrev pub detector_line : List Bytes → Bytes → Option ℕ
detector_line lines key = line_in lines (codes "detectors" ∷ []) key

abbrev pub mode_at : List Bytes → Option ℕ → Option Decision
mode_at lines none = none
mode_at lines (some index) = parse_mode (get_or lines index [])

unfoldable pub detector_mode : List Bytes → DataKind → Option Decision
unfolding detector_key
detector_mode lines kind = mode_at lines (detector_line lines (detector_key kind))

-- `self.lines[index] = …` and `Vec::insert`.
unfoldable pub set_at : ℕ → Bytes → List Bytes → List Bytes
set_at index line [] = []
set_at zero line (x ∷ xs) = line ∷ xs
set_at (suc index) line (x ∷ xs) = x ∷ set_at index line xs

unfoldable pub insert_at : ℕ → Bytes → List Bytes → List Bytes
insert_at zero line xs = line ∷ xs
insert_at (suc index) line [] = line ∷ []
insert_at (suc index) line (x ∷ xs) = x ∷ insert_at index line xs

-- The lines that are left, and the error.
abbrev pub Edited : Type 0
Edited = List Bytes × Option PolicyError

abbrev pub layer_word : Layer → Bytes
layer_word ner = codes "ner"
layer_word _ = codes "deterministic"

abbrev pub layer_of : Bytes → Bytes
layer_of key = elim (find (λ k. text_eq (detector_key k) key) all_kinds) [
  | none ↦ codes "deterministic"
  | some kind ↦ layer_word (DataKind.layer kind)
]

unfoldable pub spaces : ℕ → Bytes
spaces zero = []
spaces (suc n) = 32 ∷ spaces n

abbrev pub at_least_one : ℕ → ℕ
at_least_one zero = 1
at_least_one (suc n) = suc n

abbrev pub or_column : Bytes → Option ℕ → ℕ
or_column indent none = length indent + 14
or_column indent (some column) = column

abbrev pub indentation : Bytes → Bytes
indentation line = elim (line_key line) [ none ↦ [] | some (indent, k) ↦ indent ]

-- A line in the shape of its neighbour.
unfoldable pub new_line : Bytes → Bytes → Decision → Bytes
unfolding spaces position
new_line template key mode =
    let indent = indentation template in
    let column = or_column indent (position (λ b. b == b'{') template) in
    let head = indent ++ key ++ codes ":" in
    head
    ++ spaces (at_least_one (column - length head))
    ++ codes "{ layer: "
    ++ layer_of key
    ++ codes ", mode: "
    ++ mode_word mode
    ++ codes " }"
    ++ (if ends_with template 13 then 13 ∷ [] else [])

abbrev pub is_key_line : Bytes → Bool
is_key_line line = elim (line_key line) [ none ↦ false | some k ↦ true ]

abbrev pub inserted : List Bytes → Bytes → Decision → Option ℕ → Edited
inserted lines key mode none = (lines, some (shape (codes "the `detectors:` block is empty")))
inserted lines key mode (some template) =
    (insert_at (suc template) (new_line (get_or lines template []) key mode) lines, none)

unfoldable pub insert_detector : List Bytes → Bytes → Decision → Edited
unfolding block find_last_line insert_at new_line
insert_detector lines key mode = elim (block lines (codes "detectors" ∷ [])) [
  | none ↦ (lines, some (shape (codes "this configuration has no `detectors:` block")))
  | some (start, end) ↦
      inserted lines key mode (find_last_line is_key_line lines start (end - start))
]

-- The edit of a line that is there; `none` when it does not have the form that is needed.
abbrev pub rewritten : List Bytes → ℕ → PolicyError → Option Bytes → Edited
rewritten lines index error none = (lines, some error)
rewritten lines index error (some line) = (set_at index line lines, none)

unfoldable pub edit_detector : List Bytes → Bytes → Decision → Option ℕ → Edited
unfolding insert_detector set_at replace_mode
edit_detector lines key mode none = insert_detector lines key mode
edit_detector lines key mode (some index) =
    rewritten lines index
      (shape
        (codes "the entry for " ++ key ++ codes " is not of the form `{ layer: ..., mode: ... }`"))
      (replace_mode (get_or lines index []) mode)

abbrev pub joined_keys : List Bytes → Bytes
joined_keys [] = []
joined_keys (k ∷ []) = k
joined_keys (k ∷ l ∷ ks) = k ++ (b'.' ∷ joined_keys (l ∷ ks))

abbrev pub with_value : Bytes → Bytes → Option ℕ → Option Bytes
with_value line value none = none
with_value line value (some colon) =
    some (take colon line ++ codes ": " ++ value ++ comment_tail (drop (suc colon) line))

abbrev pub set_in : List Bytes → List Bytes → Bytes → Bytes → Option ℕ → Edited
set_in lines parent key value none =
    (lines, some (shape (codes "no `" ++ joined_keys (parent ++ (key ∷ [])) ++ codes "` key")))
set_in lines parent key value (some index) =
    rewritten lines index
      (shape (codes "`" ++ joined_keys (parent ++ (key ∷ [])) ++ codes "` is not a key/value line"))
      (with_value (get_or lines index []) value (position (λ b. b == b':') (get_or lines index [])))

-- The last key of the path stands by itself.
unfoldable pub set_scalar : List Bytes → List Bytes → Bytes → Bytes → Edited
unfolding block find_line set_at comment_tail position
set_scalar lines parent key value = elim (block lines parent) [
  | none ↦ (lines, some (shape (codes "no `" ++ joined_keys parent ++ codes ":` block")))
  | some (start, end) ↦
      set_in lines parent key value (find_line (has_key key) lines start (end - start))
]
