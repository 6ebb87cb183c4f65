-- ===== src/Mask/Overlap.antt =====
-- What `mask_spans` does where spans overlap.
use mathlib.Core.Path.{subst}
use native.Mathlib.Nat.{le_refl, le_trans}
use sentin_npu.Prelude.{
  ℕ, ◌≤◌, ◌<◌, ◌≡◌, refl, ap, ◌∙◌, reverse, ◌⊎◌, inl, inr, true, false, List, [], ◌∷◌, arith,
  length, ltb, leb, All, All-imp, Bytes, Bool-cases,
}
use sentin_npu.Core.Device.{returns}
use sentin_npu.Mask.{Span, usize_max, insert_span, sort_spans, mask_spans}
use sentin_npu.Mask.Reference.{
  kept, masked_from, IsInside, All-sort_spans, All-sort_spans_back, mask_spans-masked_from,
}

abbrev pub Any : (Span → Type 0) → List Span → Type 0
Any P [] = ⊥
Any P (x ∷ xs) = P x ⊎ Any P xs

-- `y` is `x`, or begins inside it.
abbrev pub Meets : Span → Span → Type 0
Meets x y = (y ≡ x) ⊎ ((x.0.start ≤ y.0.start) × (y.0.start < x.0.end))

abbrev Descends : ℕ → List Span → Type 0
Descends k [] = Unit
Descends k (x ∷ xs) = (x.0.start ≤ k) × Descends x.0.start xs

insert_span-Descends :
    (k : ℕ) (x : Span) (ys : List Span)
    → x.0.start ≤ k
    → Descends k ys
    → Descends k (insert_span x ys)
unfolding insert_span
insert_span-Descends k x [] h d = (h, tt)
insert_span-Descends k x (y ∷ ys) h (l, d) = elim (Bool-cases (leb y.0.start x.0.start)) [
  | inl before ↦ rw before (h, (ground arith, d))
  | inr behind ↦ rw behind (l, insert_span-Descends y.0.start x ys (ground arith) d)
]

sort_spans-Descends :
    (k : ℕ) (xs : List Span) → All (λ x. x.0.start ≤ k) xs → Descends k (sort_spans xs)
unfolding sort_spans
sort_spans-Descends k [] h = tt
sort_spans-Descends k (x ∷ xs) (l, h) =
    insert_span-Descends k x (sort_spans xs) l (sort_spans-Descends k xs h)

-- The start of the last kept span lies inside `x`.
abbrev Crossed : ℕ → Span → Type 0
Crossed last x = (x.0.start ≤ last) × (last < x.0.end)

kept_over :
    (x : Span) (xs : List Span) (last : ℕ)
    → ltb last x.0.end ≡ true
    → kept xs last ≡ kept (x ∷ xs) last
unfolding kept
kept_over x xs last h = rw h

kept_apart :
    (x : Span) (xs : List Span) (last : ℕ)
    → ltb last x.0.end ≡ false
    → x ∷ kept xs x.0.start ≡ kept (x ∷ xs) last
unfolding kept
kept_apart x xs last h = rw h

abbrev Settled : ℕ → List Span → List Span → Type 0
Settled last xs ks = All (λ y. Crossed last y ⊎ Any (Meets y) ks) xs

kept-Crossed :
    (xs : List Span) (last k : ℕ) → k ≤ last → Descends k xs → Settled last xs (kept xs last)
kept-Crossed [] last k h d = tt
kept-Crossed (x ∷ xs) last k h (l, d) = elim (Bool-cases (ltb last x.0.end)) [
  | inl over ↦
      subst (Settled last (x ∷ xs)) (kept_over x xs last over)
        (inl (omega arith, ground arith), kept-Crossed xs last x.0.start (omega arith) d)
  | inr apart ↦ subst (Settled last (x ∷ xs)) (kept_apart x xs last apart) (
    inr (inl (inl refl)),
    All-imp (λ y c. elim c [ inl m ↦ inr (inl (inr m)) | inr m ↦ inr (inr m) ]) xs
        (kept-Crossed xs x.0.start x.0.start (le_refl x.0.start) d),
  )
]

All-join :
    (text : Bytes) (ks xs : List Span)
    → length text ≤ usize_max
    → All (IsInside text) xs
    → All (λ x. Crossed usize_max x ⊎ Any (Meets x) ks) xs
    → All (λ x. Any (Meets x) ks) xs
All-join text ks [] fits h c = tt
All-join text ks (x ∷ xs) fits (i, h) (m, c) =
    (elim m [ inl over ↦ absurd (omega arith) | inr meets ↦ meets ], All-join text ks xs fits h c)

-- Of the spans inside a text that fits the address space, each is replaced, or one that begins
-- inside it is; `kept` lists the spans that are replaced.
pub kept-Meets :
    (text : Bytes) (spans : List Span)
    → length text ≤ usize_max
    → All (IsInside text) spans
    → All (λ x. Any (Meets x) (kept (sort_spans spans) usize_max)) spans
kept-Meets text spans fits h =
    let low = All-imp (λ (x : Span) i. le_trans i.0 (le_trans i.1 fits)) spans h in
    let crossed =
      kept-Crossed (sort_spans spans) usize_max usize_max (le_refl usize_max)
        (sort_spans-Descends usize_max spans low) in
    let all =
      All-join text (kept (sort_spans spans) usize_max) (sort_spans spans) fits
        (All-sort_spans (IsInside text) spans h) crossed in
    All-sort_spans_back (λ x. Any (Meets x) (kept (sort_spans spans) usize_max)) spans all

module _ (text : Bytes) (a b : Span) (fits : length text ≤ usize_max) where
  kept_inner :
      a.0.end ≤ length text
      → b.0.end ≤ length text
      → a.0.start < b.0.start
      → b.0.start < a.0.end
      → kept (sort_spans (a ∷ b ∷ [])) usize_max ≡ b ∷ []
  unfolding kept sort_spans insert_span
  kept_inner ha hb l r = ground arith

-- Of two spans on character boundaries inside a text that fits the address space, the first of which begins first and ends
-- behind the start of the second, only the second is replaced: the bytes of the first before and
-- behind the second go out as they stand.
pub mask_spans_overlap :
    (text : Bytes) (a b : Span)
    → IsInside text a
    → IsInside text b
    → length text ≤ usize_max
    → a.0.start < b.0.start
    → b.0.start < a.0.end
    → mask_spans text (a ∷ b ∷ []) ≡ returns (masked_from text 0 (b ∷ []))
mask_spans_overlap text a b ia ib fits l r =
    mask_spans-masked_from text (a ∷ b ∷ []) (ia, (ib, tt))
    ∙ ap (λ ks. returns (masked_from text 0 (reverse ks))) (kept_inner text a b fits ia.1 ib.1 l r)
