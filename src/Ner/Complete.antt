-- ===== src/Ner/Complete.antt =====
-- The first loop of `decode`: every token is read, and every word has an extent and a label.
use mathlib.Core.Path.{subst}
use mathlib.Core.Option.{some-injective}
use native.Mathlib.Nat.{mul-le-mul_right}
use sentin_npu.Core.DataKind
use sentin_npu.Core.DataKind.{DataKind}
use sentin_npu.Core.Device.{Outcome, returns}
use sentin_npu.Core.Layer.{ner}
use sentin_npu.Core.Validation.{pattern_only}
use sentin_npu.Ner.Decode.{
  lookup, larger, entity_kind, Words, entered, scores_at, read_token, read_words,
}
use sentin_npu.Prelude.{
  ℕ, zero, suc, ◌+◌, ◌*◌, ◌≤◌, ◌≡◌, refl, sym, ◌∙◌, inl, inr, Bool, true, false, List, [], ◌∷◌,
  Option, none, some, ltb, leb, ◌==◌, le→leb, length, get_elem?, All, All-append, All-imp, arith,
  Bytes, Bool-cases, Option-cases,
}

-- An index in range finds an element, which has what all have.
get_elem?-All {ℓ κ} :
    {A : Type ℓ} (P : A → Type κ) (xs : List A) (i : ℕ)
    → suc i ≤ length xs
    → All P xs
    → (x : A) × (get_elem? xs i ≡ some x) × P x
get_elem?-All P [] i h ps = absurd (ground arith)
get_elem?-All P (x ∷ xs) zero h (p, ps) = (x, refl, p)
get_elem?-All P (x ∷ xs) (suc i) h (p, ps) = get_elem?-All P xs i (omega (arith, h)) ps

pub entity_kind-layer :
    (entity : Bytes) (k : DataKind)
    → entity_kind entity ≡ some k
    → (DataKind.layer k ≡ ner) × (DataKind.evidence k ≡ pattern_only)
unfolding DataKind.layer DataKind.evidence
entity_kind-layer entity k h = ground arith

-- A word has an extent and a label.
abbrev pub HasEntry : Words → ℕ → Type 0
HasEntry w k =
    ((o : ℕ × ℕ) × (lookup k w.extents ≡ some o)) × ((l : Bytes) × (lookup k w.labels ≡ some l))

-- A further entry hides none.
lookup-cons {ℓ} :
    {A : Type ℓ} (k j : ℕ) (v : A) (m : List (ℕ × A))
    → ((a : A) × (lookup k m ≡ some a))
    → (a : A) × (lookup k ((j, v) ∷ m) ≡ some a)
lookup-cons k j v m (a, e) = elim (Bool-cases (j == k)) [
  | inl same ↦ rw same (v, refl)
  | inr other ↦ rw other (a, e)
]

lookup-same {ℓ} :
    {A : Type ℓ} (k j : ℕ) (v : A) (m : List (ℕ × A))
    → (j == k) ≡ true
    → lookup k ((j, v) ∷ m) ≡ some v
lookup-same k j v m h = rw h refl

lookup-other {ℓ} :
    {A : Type ℓ} (k j : ℕ) (v : A) (m : List (ℕ × A))
    → (j == k) ≡ false
    → lookup k ((j, v) ∷ m) ≡ lookup k m
lookup-other k j v m h = rw h refl

lookup-head {ℓ} : {A : Type ℓ} (k : ℕ) (v : A) (m : List (ℕ × A)) → lookup k ((k, v) ∷ m) ≡ some v
lookup-head k v m = ground arith

module _ (At : ℕ → Type 0) where
  abbrev pub Ends : ℕ × ℕ → Type 0
  Ends o = At o.0 × At o.1

  pub lookup-Ends :
      (k : ℕ) (m : List (ℕ × (ℕ × ℕ))) (o : ℕ × ℕ)
      → All (λ x. Ends x.1) m
      → lookup k m ≡ some o
      → Ends o
  lookup-Ends k [] o h e = absurd (ground arith)
  lookup-Ends k ((j, v) ∷ m) o (p, ps) e = elim (Bool-cases (j == k)) [
    | inl same ↦
        let found : some v ≡ some o = sym (lookup-same k j v m same) ∙ e in
        subst Ends (some-injective v o found) p
    | inr other ↦ lookup-Ends k m o ps (sym (lookup-other k j v m other) ∙ e)
  ]

  larger-At : (a b : ℕ) → At a → At b → At (larger a b)
  larger-At a b ha hb = elim (Bool-cases (ltb a b)) [ inl l ↦ rw l hb | inr l ↦ rw l ha ]

  -- The extents are of tokens, and every word in the order has its entries.
  pub record IsComplete (w : Words) : Type 0 where
    pub ends : All (λ x. Ends x.1) w.extents
    pub known : All (HasEntry w) w.order

  entered-IsComplete :
      (k start end : ℕ) (label : Bytes) (w : Words)
      → At start
      → At end
      → IsComplete w
      → IsComplete (entered k start end label w (lookup k w.extents))
  entered-IsComplete k start end label w hs he h = elim (Option-cases (lookup k w.extents)) [
    | inl new ↦ rw new record {
      ends = ((hs, he), h.ends);
      known =
          All-append _ w.order (k ∷ [])
            (All-imp
              (λ j e.
                (lookup-cons j k (start, end) w.extents e.0, lookup-cons j k label w.labels e.1))
              w.order h.known)
            (
              (
                ((start, end), lookup-head k (start, end) w.extents),
                (label, lookup-head k label w.labels),
              ),
              tt,
            );
    }
    | inr ((s, e), old) ↦
        let (hs', he') = lookup-Ends k w.extents (s, e) h.ends old in
        rw old record {
          ends = ((hs', larger-At e end he' he), h.ends);
          known =
              All-imp (λ j x. (lookup-cons j k (s, larger e end) w.extents x.0, x.1)) w.order
                h.known;
        }
  ]

ahead : (p n : ℕ) → p + 1 ≤ p + suc n
ahead p n = omega arith

module _ {ℓ} (Score : Type ℓ) (greater : Score → Score → Bool) (At : ℕ → Type 0)
    (id2label : List Bytes) (logits : List Score) (label_count : ℕ) (offsets : List (ℕ × ℕ))
    (ends : All (Ends At) offsets) where
  abbrev read : ℕ → List (Option ℕ) → Words → Outcome Words
  read = read_words Score greater id2label logits label_count offsets

  abbrev token : ℕ → Option ℕ → Words → Outcome Words
  token = read_token Score greater id2label logits label_count offsets

  -- A token within range is read.
  read_token-IsComplete :
      (position : ℕ) (id : Option ℕ) (w : Words)
      → suc position ≤ length offsets
      → (position + 1) * label_count ≤ length logits
      → IsComplete At w
      → (w' : Words) × (token position id w ≡ returns w') × IsComplete At w'
  unfolding scores_at
  read_token-IsComplete position none w within scored h = (w, refl, h)
  read_token-IsComplete position (some k) w within scored h =
      let ((start, end), found, (hs, he)) = get_elem?-All (Ends At) offsets position within ends in
      rw found (elim (Bool-cases (leb end start)) [
        | inl empty ↦ rw empty (w, refl, h)
        | inr full ↦
            rw (full, le→leb _ _ scored) (_, refl, entered-IsComplete At k start end _ w hs he h)
      ])

  pub read_words-IsComplete :
      (ids : List (Option ℕ)) (position : ℕ) (w : Words)
      → position + length ids ≤ length offsets
      → (position + length ids) * label_count ≤ length logits
      → IsComplete At w
      → (w' : Words) × (read position ids w ≡ returns w') × IsComplete At w'
  unfolding read_words
  read_words-IsComplete [] position w within scored h = (w, refl, h)
  read_words-IsComplete (id ∷ ids) position w within scored h =
      let (w1, e1, h1) =
        read_token-IsComplete position id w (omega arith)
          (omega (arith, scored, mul-le-mul_right label_count (ahead position (length ids)))) h in
      let (w2, e2, h2) =
        read_words-IsComplete ids (position + 1) w1 (omega arith) (omega (arith, scored)) h1 in
      (w2, rw (e1, e2) refl, h2)
