-- ===== src/Ner/Laws.antt =====
-- When `decode` returns, and what.
use sentin_npu.Core.Ceiling.{IsDeclared}
use sentin_npu.Core.DataKind
use sentin_npu.Core.DataKind.{DataKind}
use sentin_npu.Core.Device.{returns, is_char_boundary}
use sentin_npu.Core.Finding.{Finding}
use sentin_npu.Core.Layer.{ner}
use sentin_npu.Core.Validation.{pattern_only}
use sentin_npu.Ner.Decode.{
  entity_kind, entity, make_finding, replaced, Words, Entities, taken, closed, continues, extended,
  of_kind, prefix_and_entity, merge_words, no_words, no_entities, decode,
}
use sentin_npu.Prelude.{
  ℕ, ◌*◌, ◌≤◌, ◌≡◌, refl, sym, inl, inr, Bool, List, [], ◌∷◌, ◌++◌, true, Option, none, some,
  length, All, All-append, arith, Bytes, Bool-cases, Option-cases,
}
use sentin_npu.Ner.Complete.{HasEntry, Ends, entity_kind-layer, lookup-Ends, read_words-IsComplete}

module _ (text : Bytes) where
  -- A place where a character of the text begins, or the text ends.
  abbrev pub IsBoundary : ℕ → Type 0
  IsBoundary i = is_char_boundary text i ≡ true

  -- A finding on character boundaries that layer 2 may report.
  abbrev pub IsEntity : Finding → Type 0
  IsEntity f = IsBoundary f.span.start × IsBoundary f.span.end × IsDeclared f

  abbrev IsOpen : Option (ℕ × ℕ × DataKind) → Type 0
  IsOpen none = Unit
  IsOpen (some (start, end, kind)) =
      IsBoundary start
      × IsBoundary end
      × (DataKind.layer kind ≡ ner)
      × (DataKind.evidence kind ≡ pattern_only)

  record AreEntities (es : Entities) : Type 0 where
    found : All IsEntity es.findings
    open_ : IsOpen es.current

  make_finding-returns :
      (start end : ℕ) (kind : DataKind)
      → IsBoundary start
      → IsBoundary end
      → make_finding text start end kind ≡ returns (entity start end kind)
  unfolding make_finding
  make_finding-returns start end kind hs he = rw (hs, he) refl

  taken-IsEntity :
      (findings : List Finding) (o : Option (ℕ × ℕ × DataKind))
      → All IsEntity findings
      → IsOpen o
      → (fs : List Finding) × (taken text findings o ≡ returns fs) × All IsEntity fs
  taken-IsEntity findings none h p = (findings, refl, h)
  taken-IsEntity findings (some (start, end, kind)) h (hs, he, hl, hv) = (
    findings ++ entity start end kind ∷ [],
    rw (make_finding-returns start end kind hs he) refl,
    All-append IsEntity findings (entity start end kind ∷ []) h ((hs, he, (sym hl, sym hv)), tt),
  )

  closed-IsEntity :
      (es : Entities)
      → AreEntities es
      → (fs : List Finding) × (closed text es ≡ returns fs) × All IsEntity fs
  closed-IsEntity es h = taken-IsEntity es.findings es.current h.found h.open_

  replaced-AreEntities :
      (slot : Option (ℕ × ℕ × DataKind)) (es : Entities)
      → IsOpen slot
      → AreEntities es
      → (es' : Entities) × (replaced text slot es ≡ returns es') × AreEntities es'
  replaced-AreEntities slot es o h =
      let (fs, e, k) = closed-IsEntity es h in
      (record { findings = fs; current = slot }, rw e refl, record { found = k; open_ = o })

  extended-IsOpen :
      (end : ℕ) (o : Option (ℕ × ℕ × DataKind))
      → IsBoundary end
      → IsOpen o
      → IsOpen (extended end o)
  extended-IsOpen end none he h = tt
  extended-IsOpen end (some (s, e, k)) he (hs, old, hl, hv) = (hs, he, hl, hv)

  of_kind-AreEntities :
      (start end : ℕ) (prefix name : Bytes) (es : Entities)
      → IsBoundary start
      → IsBoundary end
      → AreEntities es
      → (es' : Entities) × (of_kind text start end prefix (entity_kind name) es ≡ returns es')
        × AreEntities es'
  unfolding of_kind
  of_kind-AreEntities start end prefix name es hs he h = elim (Option-cases (entity_kind name)) [
    | inl outside ↦ rw outside (replaced-AreEntities none es tt h)
    | inr (k, inside) ↦ rw inside (elim (Bool-cases (continues prefix k es.current)) [
      | inl more ↦
          rw more
            (_, refl, record { found = h.found; open_ = extended-IsOpen end es.current he h.open_ })
      | inr other ↦
          let (hl, hv) = entity_kind-layer name k inside in
          rw other (replaced-AreEntities (some (start, end, k)) es (hs, he, hl, hv) h)
    ])
  ]

  merge_words-AreEntities :
      (w : Words) (order : List ℕ) (es : Entities)
      → All (λ x. Ends IsBoundary x.1) w.extents
      → All (HasEntry w) order
      → AreEntities es
      → (es' : Entities) × (merge_words text w order es ≡ returns es') × AreEntities es'
  unfolding merge_words
  merge_words-AreEntities w [] es ends known h = (es, refl, h)
  merge_words-AreEntities w (k ∷ order) es ends (((o, eo), (tag, et)), known) h =
      let at = lookup-Ends IsBoundary k w.extents o ends eo in
      let (es1, e1, h1) =
        of_kind-AreEntities o.0 o.1 (prefix_and_entity tag).0 (prefix_and_entity tag).1 es at.0 at.1
          h in
      let (es2, e2, h2) = merge_words-AreEntities w order es1 ends known h1 in
      (es2, rw (eo, et, e1) e2, h2)

-- When there is an offset for each token and a score for each of its labels, and every offset is on
-- character boundaries of the text: `decode` returns, every finding begins and ends on character
-- boundaries, and each comes from layer 2 with the evidence that its kind declares.
pub decode-All-IsEntity {ℓ} :
    (Score : Type ℓ) (greater : Score → Score → Bool) (id2label : List Bytes) (logits : List Score)
    (label_count : ℕ) (word_ids : List (Option ℕ)) (offsets : List (ℕ × ℕ)) (text : Bytes)
    → length word_ids ≤ length offsets
    → length word_ids * label_count ≤ length logits
    → All (λ o. IsBoundary text o.0 × IsBoundary text o.1) offsets
    → (fs : List Finding) × (decode Score greater id2label logits label_count word_ids offsets text
        ≡ returns fs)
      × All (IsEntity text) fs
unfolding decode
decode-All-IsEntity Score greater id2label logits label_count word_ids offsets text within scored
      ends =
    let (w, e1, h1) =
      read_words-IsComplete Score greater (IsBoundary text) id2label logits label_count offsets ends
        word_ids 0 no_words (omega (arith, within)) (omega (arith, scored))
        record { ends = tt; known = tt } in
    let (es, e2, h2) =
      merge_words-AreEntities text w w.order no_entities h1.ends h1.known
        record { found = tt; open_ = tt } in
    let (fs, e3, h3) = closed-IsEntity text es h2 in (fs, rw (e1, e2) e3, h3)
