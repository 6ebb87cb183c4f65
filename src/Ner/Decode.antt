-- ===== src/Ner/Decode.antt =====
-- `decode` of ner.rs. A score is whatever the model returns, compared by a parameter: `greater a b`
-- is `a.partial_cmp(b) == Some(Greater)`, so that scores that do not compare count as equal. Indexing
-- out of range panics, and so does the assertion of `make_finding`, as in a build with debug assertions.
-- A map is the list of its entries, the newest first.
use sentin_npu.Config.{text_eq}
use sentin_npu.Core.DataKind
use sentin_npu.Core.DataKind.{DataKind, person, organization, location}
use sentin_npu.Core.Device.{Outcome, returns, panics, and_then, is_char_boundary}
use sentin_npu.Core.Finding.{Finding}
use sentin_npu.Core.Layer.{ner}
use sentin_npu.Core.Validation.{pattern_only}
use sentin_npu.Prelude.{
  ℕ, ◌+◌, ◌*◌, Bool, false, ◌&&◌, List, [], ◌∷◌, ◌++◌, Option, none, some, ltb, leb, ◌==◌,
  if◌then◌else◌, length, get_elem?, take, drop, Bytes, codes,
}

-- `HashMap::get`
abbrev pub lookup {ℓ} : {A : Type ℓ} → ℕ → List (ℕ × A) → Option A
lookup w [] = none
lookup w ((k, v) ∷ m) = if k == w then some v else lookup w m

abbrev pub larger : ℕ → ℕ → ℕ
larger a b = if ltb a b then b else a

-- `str::split_once`
unfoldable pub split_once : ℕ → Bytes → Option (Bytes × Bytes)
split_once c [] = none
split_once c (b ∷ s) =
    if b == c
    then some ([], s)
    else elim (split_once c s) [ none ↦ none | some (before, after) ↦ some (b ∷ before, after) ]

abbrev pub entity_kind : Bytes → Option DataKind
entity_kind entity =
    if text_eq entity (codes "PER")
    then some person
    else if text_eq entity (codes "ORG")
    then some organization
    else if text_eq entity (codes "LOC")
    then some location
    else none

abbrev pub entity : ℕ → ℕ → DataKind → Finding
entity start end kind = record {
  span = record { start = start; end = end };
  kind = kind;
  confidence = 90;
  layer = ner;
  validation = pattern_only;
}

-- `debug_assert!` panics on offsets that are off the boundaries of the text's characters.
unfoldable pub make_finding : Bytes → ℕ → ℕ → DataKind → Outcome Finding
unfolding is_char_boundary
make_finding text start end kind =
    if is_char_boundary text start && is_char_boundary text end
    then returns (entity start end kind)
    else panics

-- Per word: its first token's label, and an extent that covers every token of it.
pub record Words : Type 0 where
  pub order : List ℕ
  pub extents : List (ℕ × (ℕ × ℕ))
  pub labels : List (ℕ × Bytes)

-- The entry of a word: a later token only extends it.
abbrev pub entered : ℕ → ℕ → ℕ → Bytes → Words → Option (ℕ × ℕ) → Words
entered word start end label w none = record {
  order = w.order ++ (word ∷ []);
  extents = (word, (start, end)) ∷ w.extents;
  labels = (word, label) ∷ w.labels;
}
entered word start end label w (some (s, e)) = record w {
  extents = (word, (s, larger e end)) ∷ w.extents;
}

abbrev pub or_outside : Option Bytes → Bytes
or_outside none = codes "O"
or_outside (some label) = label

module _ {ℓ} (Score : Type ℓ) (greater : Score → Score → Bool) where
  -- `max_by`: of the greatest scores the last. The best so far stands with its index.
  abbrev pub better : ℕ × Score → ℕ × Score → ℕ × Score
  better (i, a) (k, b) = if greater a b then (i, a) else (k, b)

  unfoldable pub last_max : ℕ × Score → ℕ → List Score → ℕ
  last_max (i, best) next [] = i
  last_max (i, best) next (x ∷ xs) = last_max (better (i, best) (next, x)) (next + 1) xs

  unfoldable pub argmax : List Score → ℕ
  unfolding last_max
  argmax [] = 0
  argmax (x ∷ xs) = last_max (0, x) 1 xs

  module _ (id2label : List Bytes) (logits : List Score) (label_count : ℕ) where
    -- `&logits[position * label_count..(position + 1) * label_count]`
    unfoldable pub scores_at : ℕ → Outcome (List Score)
    scores_at position =
        if leb ((position + 1) * label_count) (length logits)
        then returns (take label_count (drop (position * label_count) logits))
        else panics

    unfoldable pub label_of : List Score → Bytes
    unfolding argmax
    label_of scores = or_outside (get_elem? id2label (argmax scores))

    abbrev pub with_offset : ℕ → ℕ → Words → Option (ℕ × ℕ) → Outcome Words
    with_offset position word w none = panics
    with_offset position word w (some (start, end)) =
        if leb end start
        then returns w
        else and_then (scores_at position)
            (λ scores. returns (entered word start end (label_of scores) w (lookup word w.extents)))

    abbrev pub read_token : List (ℕ × ℕ) → ℕ → Option ℕ → Words → Outcome Words
    read_token offsets position none w = returns w
    read_token offsets position (some word) w =
        with_offset position word w (get_elem? offsets position)

    -- The first loop of `decode`.
    unfoldable pub read_words : List (ℕ × ℕ) → ℕ → List (Option ℕ) → Words → Outcome Words
    unfolding scores_at label_of
    read_words offsets position [] w = returns w
    read_words offsets position (id ∷ ids) w =
        and_then (read_token offsets position id w) (read_words offsets (position + 1) ids)

-- The findings so far and the entity that is still open.
pub record Entities : Type 0 where
  pub findings : List Finding
  pub current : Option (ℕ × ℕ × DataKind)

-- The open entity is made a finding, if there is one.
abbrev pub taken : Bytes → List Finding → Option (ℕ × ℕ × DataKind) → Outcome (List Finding)
taken text findings none = returns findings
taken text findings (some (start, end, kind)) =
    and_then (make_finding text start end kind) (λ f. returns (findings ++ f ∷ []))

abbrev pub closed : Bytes → Entities → Outcome (List Finding)
closed text es = taken text es.findings es.current

abbrev pub continues : Bytes → DataKind → Option (ℕ × ℕ × DataKind) → Bool
continues prefix kind none = false
continues prefix kind (some (start, end, current_kind)) =
    text_eq prefix (codes "I") && DataKind.eq current_kind kind

abbrev pub extended : ℕ → Option (ℕ × ℕ × DataKind) → Option (ℕ × ℕ × DataKind)
extended end none = none
extended end (some (start, current_end, kind)) = some (start, end, kind)

-- The open entity is closed, and another one opened in its place, or none.
abbrev pub replaced : Bytes → Option (ℕ × ℕ × DataKind) → Entities → Outcome Entities
replaced text slot es =
    and_then (closed text es) (λ findings. returns (record { findings = findings; current = slot }))

unfoldable pub of_kind : Bytes → ℕ → ℕ → Bytes → Option DataKind → Entities → Outcome Entities
unfolding make_finding
of_kind text start end prefix none es = replaced text none es
of_kind text start end prefix (some kind) es =
    if continues prefix kind es.current
    then returns (record es { current = extended end es.current })
    else replaced text (some (start, end, kind)) es

-- `tag.split_once('-').unwrap_or(("O", ""))`
unfoldable pub prefix_and_entity : Bytes → Bytes × Bytes
unfolding split_once
prefix_and_entity tag = elim (split_once b'-' tag) [ none ↦ (codes "O", []) | some parts ↦ parts ]

abbrev pub of_word : Bytes → Option (ℕ × ℕ) → Option Bytes → Entities → Outcome Entities
of_word text (some (start, end)) (some tag) es =
    let (prefix, entity) = prefix_and_entity tag in
    of_kind text start end prefix (entity_kind entity) es
of_word text _ _ es = panics

-- The second loop of `decode`.
unfoldable pub merge_words : Bytes → Words → List ℕ → Entities → Outcome Entities
unfolding of_kind prefix_and_entity
merge_words text w [] es = returns es
merge_words text w (word ∷ order) es =
    and_then (of_word text (lookup word w.extents) (lookup word w.labels) es)
      (merge_words text w order)

abbrev pub no_words : Words
no_words = record { order = []; extents = []; labels = [] }

abbrev pub no_entities : Entities
no_entities = record { findings = []; current = none }

module _ {ℓ} (Score : Type ℓ) (greater : Score → Score → Bool) where
  unfoldable pub decode :
      List Bytes → List Score → ℕ → List (Option ℕ) → List (ℕ × ℕ) → Bytes → Outcome (List Finding)
  unfolding read_words merge_words make_finding
  decode id2label logits label_count word_ids offsets text =
      and_then (read_words Score greater id2label logits label_count offsets 0 word_ids no_words)
        (λ w. and_then (merge_words text w w.order no_entities) (closed text))
