-- ===== src/Report/Laws.antt =====
-- What the counts of a report say about the file.
use mathlib.Core.Path.{subst}
use sentin_npu.Config.{text_eq}
use sentin_npu.Config.Keys.{text_eq→eq}
use sentin_npu.Extract.Office.{is_blank}
use sentin_npu.Record.{text_lt}
use sentin_npu.Report.{
  Line, Tally, Report, no_report, count, bump, is_text, add_if, with_time, with_kind, with_line,
  lines_of, add_lines, from_jsonl, sum_values, findings, escaped, esc,
}
use sentin_npu.Prelude.{
  ℕ, suc, ◌+◌, ◌≤◌, ◌≡◌, refl, inl, inr, Bool, false, ◌&&◌, ◌||◌, All, All-append, List, [], ◌∷◌,
  Option, none, some, ◌==◌, if◌then◌else◌, is_empty, length, arith, Bytes, Bool-cases, codes,
}

plus_zero : (n : ℕ) → n ≡ n + 0
plus_zero n = omega arith

zero_plus : (n : ℕ) → 0 + n ≡ n
zero_plus n = omega arith

plus_suc : (n m : ℕ) → suc n + m ≡ n + suc m
plus_suc n m = omega arith

sum_values-count :
    (key : Bytes) (tally : Tally) → sum_values (count key tally) ≡ suc (sum_values tally)
unfolding count sum_values
sum_values-count key [] = refl
sum_values-count key ((k, n) ∷ tally) = elim (Bool-cases (text_eq k key)) [
  | inl same ↦ rw same (omega arith)
  | inr other ↦ rw other (elim (Bool-cases (text_lt key k)) [
    | inl before ↦ rw before (omega arith)
    | inr behind ↦ rw behind (omega (arith, sum_values-count key tally))
  ])
]

sum_values-bump_le :
    (tally : Tally) (o : Option Bytes) → sum_values (bump tally o) ≤ suc (sum_values tally)
sum_values-bump_le tally none = omega arith
sum_values-bump_le tally (some v) = elim (Bool-cases (is_empty v)) [
  | inl nothing ↦ rw nothing (omega arith)
  | inr text_ ↦ rw text_ (omega (arith, sum_values-count v tally))
]

-- No word is both verdicts.
not_both : (x : Bytes) → (text_eq x (codes "blocked") && text_eq x (codes "masked")) ≡ false
not_both x = elim (Bool-cases (text_eq x (codes "blocked"))) [
  | inl yes_ ↦ rw (text_eq→eq x (codes "blocked") yes_) refl
  | inr no_ ↦ rw no_ refl
]

one_more : (p q : Bool) (b m n : ℕ) → (p && q) ≡ false → b + m ≤ n → add_if p b + add_if q m ≤ suc n
one_more p q b m n e h = ground arith

-- A verdict that is counted by its word is counted in the tally.
add_if-le :
    (tally : Tally) (o : Option Bytes) (b m : ℕ)
    → b + m ≤ sum_values tally
    → add_if (is_text o (codes "blocked")) b + add_if (is_text o (codes "masked")) m
      ≤ sum_values (bump tally o)
add_if-le tally none b m h = h
add_if-le tally (some []) b m h = h
add_if-le tally (some (c ∷ s)) b m h = rw (sum_values-count (c ∷ s) tally) (
    one_more (text_eq (c ∷ s) (codes "blocked")) (text_eq (c ∷ s) (codes "masked")) b m
      (sum_values tally) (not_both (c ∷ s)) h)

-- The counts fit each other and the number of lines.
pub record IsCounted (lines : ℕ) (r : Report) : Type 0 where
  pub total : r.events + r.malformed ≡ lines
  pub found : findings r ≤ r.events
  pub decided : sum_values r.decisions ≤ r.events
  pub verdicts : r.blocked + r.masked ≤ sum_values r.decisions

with_time-IsCounted :
    (n : ℕ) (ts : Bytes) (r : Report) → IsCounted n r → IsCounted n (with_time ts r)
with_time-IsCounted n ts r h = elim (Bool-cases (is_empty ts)) [
  | inl none_ ↦ rw none_ h
  | inr some_ ↦
      rw some_
        record { total = h.total; found = h.found; decided = h.decided; verdicts = h.verdicts }
]

-- Room for one more finding: what holds between counting an event and counting its finding.
record HasRoom (lines : ℕ) (r : Report) : Type 0 where
  total : r.events + r.malformed ≡ lines
  found : suc (findings r) ≤ r.events
  decided : suc (sum_values r.decisions) ≤ r.events
  verdicts : r.blocked + r.masked ≤ sum_values r.decisions

with_time-HasRoom : (n : ℕ) (ts : Bytes) (r : Report) → HasRoom n r → HasRoom n (with_time ts r)
with_time-HasRoom n ts r h = elim (Bool-cases (is_empty ts)) [
  | inl none_ ↦ rw none_ h
  | inr some_ ↦
      rw some_
        record { total = h.total; found = h.found; decided = h.decided; verdicts = h.verdicts }
]

with_kind-IsCounted :
    (n : ℕ) (line : Line) (r : Report) → HasRoom n r → IsCounted n (with_kind line r)
with_kind-IsCounted n line r h = elim (Bool-cases (text_eq line.event (codes "pii_detected"))) [
  | inl finding ↦ rw finding record {
    total = h.total;
    found = omega (arith, sum_values-bump_le r.detectors line.detector, h.found);
    decided = omega (arith, sum_values-bump_le r.decisions line.decision, h.decided);
    verdicts = add_if-le r.decisions line.decision r.blocked r.masked h.verdicts;
  }
  | inr other ↦ rw other (elim (Bool-cases (text_eq line.event (codes "attachment_skipped"))) [
    | inl skipped ↦ rw skipped record {
      total = h.total;
      found = omega (arith, h.found);
      decided = omega (arith, h.decided);
      verdicts = h.verdicts;
    }
    | inr else_ ↦ rw else_ record {
      total = h.total;
      found = omega (arith, h.found);
      decided = omega (arith, h.decided);
      verdicts = h.verdicts;
    }
  ])
]

with_line-IsCounted :
    (n : ℕ) (o : Option Line) (r : Report) → IsCounted n r → IsCounted (suc n) (with_line o r)
with_line-IsCounted n none r h = record {
  total = omega (arith, h.total);
  found = h.found;
  decided = h.decided;
  verdicts = h.verdicts;
}
with_line-IsCounted n (some line) r h =
    let k = with_kind-IsCounted (suc n) line _ (
      with_time-HasRoom (suc n) line.ts (record r { events = suc r.events })
        record {
          total = omega (arith, h.total);
          found = omega (arith, h.found);
          decided = omega (arith, h.decided);
          verdicts = h.verdicts;
        }) in
    record { total = k.total; found = k.found; decided = k.decided; verdicts = k.verdicts }

-- The lines that are not blank.
abbrev pub not_blank : List Bytes → ℕ
not_blank [] = 0
not_blank (line ∷ lines) =
    if is_blank (length line) line then not_blank lines else suc (not_blank lines)

add_lines-IsCounted :
    (from_str : Bytes → Option Line) (lines : List Bytes) (n : ℕ) (r : Report)
    → IsCounted n r
    → IsCounted (n + not_blank lines) (add_lines from_str lines r)
unfolding add_lines
add_lines-IsCounted from_str [] n r h = subst (λ k. IsCounted k r) (plus_zero n) h
add_lines-IsCounted from_str (line ∷ lines) n r h =
    elim (Bool-cases (is_blank (length line) line)) [
      | inl blank ↦ rw blank (add_lines-IsCounted from_str lines n r h)
      | inr text_ ↦ rw text_ (
          subst (λ k. IsCounted k (add_lines from_str lines (with_line (from_str line) r)))
            (plus_suc n (not_blank lines))
            (add_lines-IsCounted from_str lines (suc n) _
              (with_line-IsCounted n (from_str line) r h)))
    ]

-- For any reader of lines: every line that is not blank is counted once, as an event or as malformed. No
-- more findings are counted than events, nor more verdicts, and the blocked and the masked ones are among
-- the verdicts.
pub from_jsonl-IsCounted :
    (from_str : Bytes → Option Line) (text : Bytes)
    → IsCounted (not_blank (lines_of text)) (from_jsonl from_str text)
unfolding from_jsonl sum_values
from_jsonl-IsCounted from_str text =
    subst (λ k. IsCounted k (add_lines from_str (lines_of text) no_report))
      (zero_plus (not_blank (lines_of text)))
      (add_lines-IsCounted from_str (lines_of text) 0 no_report
        record { total = refl; found = omega arith; decided = omega arith; verdicts = omega arith })

-- An angle bracket or a quote, which could end a text or an attribute.
abbrev pub is_markup : ℕ → Bool
is_markup c = c == b'<' || (c == b'>' || (c == b'"' || c == 39))

abbrev pub IsHarmless : ℕ → Type 0
IsHarmless c = is_markup c ≡ false

escaped-IsHarmless : (c : ℕ) → All IsHarmless (escaped c)
escaped-IsHarmless c = elim (Bool-cases (c == b'&')) [
  | inl e ↦ rw e (refl, (refl, (refl, (refl, (refl, tt)))))
  | inr e ↦ rw e (elim (Bool-cases (c == b'<')) [
    | inl f ↦ rw f (refl, (refl, (refl, (refl, tt))))
    | inr f ↦ rw f (elim (Bool-cases (c == b'>')) [
      | inl g ↦ rw g (refl, (refl, (refl, (refl, tt))))
      | inr g ↦ rw g (elim (Bool-cases (c == b'"')) [
        | inl h ↦ rw h (refl, (refl, (refl, (refl, (refl, (refl, tt))))))
        | inr h ↦ rw h (elim (Bool-cases (c == 39)) [
          | inl k ↦ rw k (refl, (refl, (refl, (refl, (refl, tt)))))
          | inr k ↦ rw k (rw (f, g, h, k) refl, tt)
        ])
      ])
    ])
  ])
]

-- Escaped text has no angle bracket and no quote.
pub esc-All-IsHarmless : (s : Bytes) → All IsHarmless (esc s)
unfolding esc
esc-All-IsHarmless [] = tt
esc-All-IsHarmless (c ∷ s) =
    All-append IsHarmless (escaped c) (esc s) (escaped-IsHarmless c) (esc-All-IsHarmless s)
