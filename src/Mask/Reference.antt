-- ===== src/Mask/Reference.antt =====
-- `mask_spans` against a left-to-right description of its result.
use mathlib.Core.List.{reverse_aux}
use mathlib.Core.Path.{ap₂}
use sentin_npu.Prelude.{
  ℕ, zero, suc, ◌+◌, ◌-◌, ◌≤◌, ◌≡◌, refl, sym, ap, ◌∙◌, ◌⊎◌, inl, inr, true, false, get_or, between,
  append-nil, List, [], ◌∷◌, ◌++◌, reverse, take-append-drop, append_assoc, arith, length, take,
  drop, ltb, leb, All, if◌then◌else◌, Bytes, Bool-cases,
}
use sentin_npu.Core.DataKind.{DataKind}
use sentin_npu.Core.Device.{returns, is_char_boundary}
use sentin_npu.Core.Finding.{Range}
use sentin_npu.Mask.{
  Span, usize_max, placeholder, insert_span, sort_spans, replace_range, mask_loop, mask_spans,
}
use sentin_npu.Scan.Cursor.{slice}
use sentin_npu.Scan.Laws.Slices.{slice-append, length-slice, drop-drop}

-- The text from `pos` on, each span of an ascending list replaced by its placeholder.
unfoldable pub masked_from : Bytes → ℕ → List Span → Bytes
masked_from text pos [] = drop pos text
masked_from text pos ((span, kind) ∷ rest) =
    slice text pos span.start ++ (placeholder kind ++ masked_from text span.end rest)

-- The spans that the loop replaces: one that ends behind the start of the last is passed over.
unfoldable pub kept : List Span → ℕ → List Span
kept [] last_start = []
kept (x ∷ rest) last_start =
    if ltb last_start x.0.end then kept rest last_start else x ∷ kept rest x.0.start

-- A span that is inside a text and begins and ends on boundaries of its characters.
abbrev pub IsInside : Bytes → Span → Type 0
IsInside text x =
    (x.0.start ≤ x.0.end)
    × (x.0.end ≤ length text)
    × (is_char_boundary text x.0.start ≡ true)
    × (is_char_boundary text x.0.end ≡ true)

-- `m` is at most where an ascending list begins, or the text ends.
abbrev Bounded : Bytes → ℕ → List Span → Type 0
Bounded text m [] = m ≤ length text
Bounded text m (x ∷ rest) = (m ≤ x.0.start) × (x.0.start ≤ length text)

drop-slice : (text : Bytes) (pos m : ℕ) → pos ≤ m → drop pos text ≡ slice text pos m ++ drop m text
drop-slice text pos m h =
    let e : pos + (m - pos) ≡ m = omega arith in
    let d = drop-drop pos (m - pos) text in
    let t = take-append-drop (m - pos) (drop pos text) in
    sym t ∙ ap (λ r. slice text pos m ++ r) (d ∙ ap (λ n. drop n text) e)

masked_from-slice :
    (text : Bytes) (pos m : ℕ) (rest : List Span)
    → pos ≤ m
    → Bounded text m rest
    → masked_from text pos rest ≡ slice text pos m ++ masked_from text m rest
unfolding masked_from
masked_from-slice text pos m [] h b = drop-slice text pos m h
masked_from-slice text pos m ((span, kind) ∷ rest) h b =
    rw (slice-append text pos m span.start h b.0, append_assoc)

take-append_eq : (n : ℕ) (s t : Bytes) → n ≡ length s → take n (s ++ t) ≡ s
take-append_eq zero [] t h = refl
take-append_eq zero (x ∷ s) t h = absurd (omega arith)
take-append_eq (suc n) [] t h = absurd (omega arith)
take-append_eq (suc n) (x ∷ s) t h = ap (◌∷◌ x) (take-append_eq n s t (omega arith))

drop-append_eq : (n : ℕ) (s t : Bytes) → n ≡ length s → drop n (s ++ t) ≡ t
drop-append_eq zero [] t h = refl
drop-append_eq zero (x ∷ s) t h = absurd (omega arith)
drop-append_eq (suc n) [] t h = absurd (omega arith)
drop-append_eq (suc n) (x ∷ s) t h = drop-append_eq n s t (omega arith)

-- A text that is empty or begins a character.
abbrev Opens : Bytes → Type 0
Opens [] = Unit
Opens (b ∷ s) = between 128 191 b ≡ false

length-append_le : (s t : Bytes) → length s ≤ length (s ++ t)
length-append_le [] t = omega arith
length-append_le (x ∷ s) t = omega (arith, length-append_le s t)

get_or-append_eq : (s t : Bytes) (b d : ℕ) → get_or (s ++ (b ∷ t)) (length s) d ≡ b
get_or-append_eq [] t b d = refl
get_or-append_eq (x ∷ s) t b d = get_or-append_eq s t b d

is_char_boundary-append :
    (n : ℕ) (s t : Bytes) → n ≡ length s → Opens t → is_char_boundary (s ++ t) n ≡ true
unfolding is_char_boundary
is_char_boundary-append n s [] e o = rw (append-nil s) (ground arith)
is_char_boundary-append n s (b ∷ t) e o = rw (e, get_or-append_eq s t b 128, o) (ground arith)

is_char_boundary-zero : (s : Bytes) → is_char_boundary s 0 ≡ true
unfolding is_char_boundary
is_char_boundary-zero s = refl

drop_nil : (n : ℕ) → drop {A = ℕ} n [] ≡ []
drop_nil zero = refl
drop_nil (suc n) = refl

get_or-Opens :
    (n : ℕ) (text : Bytes)
    → (n ≡ length text) ⊎ (between 128 191 (get_or text n 128) ≡ false)
    → Opens (drop n text)
get_or-Opens n [] h = rw (drop_nil n) tt
get_or-Opens zero (b ∷ text) (inl e) = absurd (omega arith)
get_or-Opens zero (b ∷ text) (inr e) = e
get_or-Opens (suc n) (b ∷ text) (inl e) = get_or-Opens n text (inl (omega arith))
get_or-Opens (suc n) (b ∷ text) (inr e) = get_or-Opens n text (inr e)

drop-Opens : (n : ℕ) (text : Bytes) → is_char_boundary text n ≡ true → (n ≡ 0) ⊎ Opens (drop n text)
unfolding is_char_boundary
drop-Opens zero text h = inl refl
drop-Opens (suc n) text h = inr (get_or-Opens (suc n) text (ground arith))

take-Opens : (n : ℕ) (s r : Bytes) → Opens s → Opens r → Opens (take n s ++ r)
take-Opens zero s r o h = h
take-Opens (suc n) [] r o h = h
take-Opens (suc n) (x ∷ s) r o h = o

masked_from-Opens :
    (text : Bytes) (pos : ℕ) (spans : List Span)
    → Opens (drop pos text)
    → Opens (masked_from text pos spans)
unfolding masked_from placeholder
masked_from-Opens text pos [] o = o
masked_from-Opens text pos ((span, kind) ∷ rest) o =
    take-Opens (span.start - pos) (drop pos text) _ o refl

-- Up to where the replaced spans begin, the boundaries are those of the text.
masked_from-is_char_boundary :
    (text : Bytes) (n : ℕ) (done : List Span)
    → n ≤ length text
    → Bounded text n done
    → is_char_boundary text n ≡ true
    → is_char_boundary (masked_from text 0 done) n ≡ true
masked_from-is_char_boundary text n done l b h = elim (drop-Opens n text h) [
  | inl e ↦ rw e (is_char_boundary-zero (masked_from text 0 done))
  | inr o ↦ rw (masked_from-slice text 0 n done (omega arith) b) (
      is_char_boundary-append n (slice text 0 n) (masked_from text n done)
        (omega (arith, length-slice text 0 n)) (masked_from-Opens text n done o))
]

length-masked_from :
    (text : Bytes) (n : ℕ) (done : List Span)
    → n ≤ length text
    → Bounded text n done
    → n ≤ length (masked_from text 0 done)
length-masked_from text n done l b = rw (masked_from-slice text 0 n done (omega arith) b) (
    omega
      (arith, length-slice text 0 n, length-append_le (slice text 0 n) (masked_from text n done)))

-- Replacing a span in front of those already replaced.
replaced-masked_from :
    (text : Bytes) (span : Range) (kind : DataKind) (rest : List Span)
    → span.start ≤ span.end
    → span.end ≤ length text
    → Bounded text span.end rest
    → take span.start (masked_from text 0 rest)
        ++ (placeholder kind ++ drop span.end (masked_from text 0 rest))
      ≡ masked_from text 0 ((span, kind) ∷ rest)
unfolding masked_from
replaced-masked_from text span kind rest lo hi b =
    let tail = masked_from text span.end rest in
    let whole = masked_from-slice text 0 span.end rest (omega arith) b in
    let halves = slice-append text 0 span.start span.end (omega arith) lo in
    let front =
      take-append_eq span.start (slice text 0 span.start) (slice text span.start span.end ++ tail)
        (omega (arith, length-slice text 0 span.start)) in
    let back =
      drop-append_eq span.end (slice text 0 span.end) tail
        (omega (arith, length-slice text 0 span.end)) in
    ap₂ (λ s t. s ++ (placeholder kind ++ t))
      (ap (take span.start)
          (whole ∙ ap (λ s. s ++ tail) halves ∙ append_assoc (slice text 0 span.start) _ _)
        ∙ front)
      (ap (drop span.end) whole ∙ back)

replace_range-returns :
    (out : Bytes) (span : Range) (s : Bytes)
    → span.start ≤ span.end
    → span.end ≤ length out
    → is_char_boundary out span.start ≡ true
    → is_char_boundary out span.end ≡ true
    → replace_range out span s ≡ returns (take span.start out ++ (s ++ drop span.end out))
unfolding replace_range
replace_range-returns out span s lo hi first last = ground arith

replace_range-masked_from :
    (text : Bytes) (span : Range) (kind : DataKind) (rest : List Span)
    → IsInside text (span, kind)
    → ((m : ℕ) → m ≤ span.end → m ≤ length text → Bounded text m rest)
    → replace_range (masked_from text 0 rest) span (placeholder kind)
      ≡ returns (masked_from text 0 ((span, kind) ∷ rest))
replace_range-masked_from text span kind rest (lo, hi, first, last) b =
    let below : span.start ≤ length text = omega arith in
    replace_range-returns (masked_from text 0 rest) span (placeholder kind) lo
      (length-masked_from text span.end rest hi (b span.end (omega arith) hi))
      (masked_from-is_char_boundary text span.start rest below (b span.start lo below) first)
      (masked_from-is_char_boundary text span.end rest hi (b span.end (omega arith) hi) last)
    ∙ ap returns (replaced-masked_from text span kind rest lo hi (b span.end (omega arith) hi))

mask_loop-masked_from :
    (text : Bytes) (spans : List Span) (last_start : ℕ) (done : List Span)
    → All (IsInside text) spans
    → ((m : ℕ) → m ≤ last_start → m ≤ length text → Bounded text m done)
    → mask_loop spans last_start (masked_from text 0 done)
      ≡ returns (masked_from text 0 (reverse_aux (kept spans last_start) done))
unfolding mask_loop kept
mask_loop-masked_from text [] last_start done h b = refl
mask_loop-masked_from text ((span, kind) ∷ rest) last_start done (i, h) b =
    elim (Bool-cases (ltb last_start span.end)) [
      | inl over ↦ rw over (mask_loop-masked_from text rest last_start done h b)
      | inr apart ↦
          let one =
            replace_range-masked_from text span kind done i (λ m l t. b m (ground arith) t) in
          rw (apart, one)
            (mask_loop-masked_from text rest span.start ((span, kind) ∷ done) h
              (λ m l t. (l, omega (arith, i.0, i.1))))
    ]

All-insert_span {ℓ} :
    (P : Span → Type ℓ) (x : Span) (ys : List Span) → P x → All P ys → All P (insert_span x ys)
unfolding insert_span
All-insert_span P x [] p h = (p, tt)
All-insert_span P x (y ∷ ys) p (q, h) = elim (Bool-cases (leb y.0.start x.0.start)) [
  | inl before ↦ rw before (p, (q, h))
  | inr behind ↦ rw behind (q, All-insert_span P x ys p h)
]

pub All-sort_spans {ℓ} : (P : Span → Type ℓ) (xs : List Span) → All P xs → All P (sort_spans xs)
unfolding sort_spans
All-sort_spans P [] h = tt
All-sort_spans P (x ∷ xs) (p, h) = All-insert_span P x (sort_spans xs) p (All-sort_spans P xs h)

All-insert_span_back {ℓ} :
    (P : Span → Type ℓ) (x : Span) (ys : List Span) → All P (insert_span x ys) → P x × All P ys
unfolding insert_span
All-insert_span_back P x [] h = h
All-insert_span_back P x (y ∷ ys) h = elim (Bool-cases (leb y.0.start x.0.start)) [
  | inl before ↦ rw before at h
  | inr behind ↦
      let (q, r) : P y × All P (insert_span x ys) = rw behind at h in
      let (p, t) = All-insert_span_back P x ys r in (p, (q, t))
]

-- What holds of every sorted span holds of every span given.
pub All-sort_spans_back {ℓ} :
    (P : Span → Type ℓ) (xs : List Span) → All P (sort_spans xs) → All P xs
unfolding sort_spans
All-sort_spans_back P [] h = tt
All-sort_spans_back P (x ∷ xs) h =
    let (p, t) = All-insert_span_back P x (sort_spans xs) h in (p, All-sort_spans_back P xs t)

-- For spans inside a text and on boundaries of its characters, masking from the back
-- returns, and gives what a reader from the front would write: the text between the kept spans
-- unchanged, and for each kept span its placeholder.
pub mask_spans-masked_from :
    (text : Bytes) (spans : List Span)
    → All (IsInside text) spans
    → mask_spans text spans
      ≡ returns (masked_from text 0 (reverse (kept (sort_spans spans) usize_max)))
unfolding mask_spans masked_from
mask_spans-masked_from text spans h =
    mask_loop-masked_from text (sort_spans spans) usize_max []
      (All-sort_spans (IsInside text) spans h) (λ m l t. t)
