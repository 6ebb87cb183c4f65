-- ===== src/Editor/Laws.antt =====
-- What an edit may do to a file: it changes one line at most, and when it succeeds the text says what was
-- asked for.
use sentin_npu.Editor.File.{
  PolicyError, split_lines, text_of, on_first, set_at, insert_at, rewritten,
}
use sentin_npu.Prelude.{
  ℕ, zero, suc, ◌≤◌, ◌≡◌, refl, sym, ap, ◌∙◌, inl, inr, List, [], ◌∷◌, ◌++◌, Option, none, some,
  ◌==◌, ==_iff, length, arith, Bytes, Bool-cases,
}

-- The lines of a text, joined again, are the text.
text_of-on_first : (b : ℕ) (lines : List Bytes) → text_of (on_first b lines) ≡ b ∷ text_of lines
unfolding text_of
text_of-on_first b [] = refl
text_of-on_first b (line ∷ []) = refl
text_of-on_first b (line ∷ next ∷ lines) = refl

-- A first line that is empty puts a newline in front, when there is a line behind it.
text_of-nil : (lines : List Bytes) → 1 ≤ length lines → text_of ([] ∷ lines) ≡ 10 ∷ text_of lines
unfolding text_of
text_of-nil [] h = absurd (ground arith)
text_of-nil (line ∷ lines) h = refl

length-split_lines : (s : Bytes) → 1 ≤ length (split_lines s)
unfolding split_lines
length-split_lines [] = omega arith
length-split_lines (b ∷ s) = elim (Bool-cases (b == 10)) [
  | inl newline ↦ rw newline (omega arith)
  | inr other ↦ rw other (on_first_le (split_lines s))
]
  where
    on_first_le : (lines : List Bytes) → 1 ≤ length (on_first b lines)
    on_first_le [] = omega arith
    on_first_le (line ∷ lines) = omega arith

-- A file that is not touched is written back as it was read, carriage returns and all.
pub text_of-split_lines : (s : Bytes) → text_of (split_lines s) ≡ s
unfolding split_lines text_of
text_of-split_lines [] = refl
text_of-split_lines (b ∷ s) = elim (Bool-cases (b == 10)) [
  | inl newline ↦ rw newline (
      text_of-nil (split_lines s) (length-split_lines s)
      ∙ ap (◌∷◌ 10) (text_of-split_lines s)
      ∙ ap (λ c. c ∷ s) (sym ((==_iff b 10).0 newline)))
  | inr other ↦ rw other (text_of-on_first b (split_lines s) ∙ ap (◌∷◌ b) (text_of-split_lines s))
]

-- One line at most is put in the place of one line at most.
abbrev pub ChangesOneLine : List Bytes → List Bytes → Type 0
ChangesOneLine before after =
    (front : List Bytes) × (old : List Bytes) × (new : List Bytes) × (back : List Bytes) × (length
        old
      ≤ 1)
    × (length new ≤ 1)
    × (before ≡ front ++ (old ++ back))
    × (after ≡ front ++ (new ++ back))

pub unchanged : (lines : List Bytes) → ChangesOneLine lines lines
unchanged lines = ([], [], [], lines, omega arith, omega arith, refl, refl)

behind :
    (x : Bytes) (before after : List Bytes)
    → ChangesOneLine before after
    → ChangesOneLine (x ∷ before) (x ∷ after)
behind x before after (front, old, new, back, ho, hn, e, f) =
    (x ∷ front, old, new, back, ho, hn, ap (◌∷◌ x) e, ap (◌∷◌ x) f)

set_at-ChangesOneLine :
    (index : ℕ) (line : Bytes) (lines : List Bytes) → ChangesOneLine lines (set_at index line lines)
unfolding set_at
set_at-ChangesOneLine index line [] = unchanged []
set_at-ChangesOneLine zero line (x ∷ xs) =
    ([], x ∷ [], line ∷ [], xs, omega arith, omega arith, refl, refl)
set_at-ChangesOneLine (suc index) line (x ∷ xs) =
    behind x xs (set_at index line xs) (set_at-ChangesOneLine index line xs)

pub insert_at-ChangesOneLine :
    (index : ℕ) (line : Bytes) (lines : List Bytes)
    → ChangesOneLine lines (insert_at index line lines)
unfolding insert_at
insert_at-ChangesOneLine zero line xs =
    ([], [], line ∷ [], xs, omega arith, omega arith, refl, refl)
insert_at-ChangesOneLine (suc index) line [] =
    ([], [], line ∷ [], [], omega arith, omega arith, refl, refl)
insert_at-ChangesOneLine (suc index) line (x ∷ xs) =
    behind x xs (insert_at index line xs) (insert_at-ChangesOneLine index line xs)

pub rewritten-ChangesOneLine :
    (lines : List Bytes) (index : ℕ) (error : PolicyError) (line : Option Bytes)
    → ChangesOneLine lines (rewritten lines index error line).0
rewritten-ChangesOneLine lines index error none = unchanged lines
rewritten-ChangesOneLine lines index error (some line) = set_at-ChangesOneLine index line lines
