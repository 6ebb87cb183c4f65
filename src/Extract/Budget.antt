-- ===== src/Extract/Budget.antt =====
-- The budget of an Office document: what is read never exceeds the text limit, so that `extract` never
-- marks such a text as truncated.
use mathlib.Core.Path.{subst}
use mathlib.Core.Sum.{inr-injective}
use sentin_npu.Extract.Document.{ooxml, Extracted, sniff, extract}
use sentin_npu.Extract.Laws.{result}
use sentin_npu.Extract.Office.{
  Limits, ExtractError, Part, Archive, XmlEvent, characters, end_tag, other, Formats, push_text,
  ends_piece, read_part, pushed, with_part, read_parts, unless_blank, archive_text, office_text,
  wanted_names, is_blank,
}
use sentin_npu.Extract.Utf8.{is_utf8}
use sentin_npu.Prelude.{
  ℕ, ◌+◌, ◌-◌, ◌≤◌, ◌≡◌, refl, ◌⊎◌, inl, inr, false, List, [], ◌∷◌, ◌++◌, Option, none, some, ltb,
  leb, is_empty, length, length-append, length-take, take, arith, Bytes, Bool-cases,
}

-- What the XML reader reports is no longer than the XML: characters stand in it as they are or as
-- longer references, and an end tag takes more than one byte.
abbrev pub IsShorter : Formats → Type 0
IsShorter formats = (xml : Bytes) → length (push_text (formats.read_xml xml) []) ≤ length xml

le-ltb : (a b : ℕ) → a ≤ b → ltb b a ≡ false
le-ltb a b h = ground arith

push_text-append :
    (events : List XmlEvent) (out : Bytes)
    → length (push_text events out) ≡ length out + length (push_text events [])
unfolding push_text
push_text-append [] out = omega arith
push_text-append (characters s ∷ events) out =
    omega
      (arith, push_text-append events (out ++ s), push_text-append events s, length-append out s)
push_text-append (other ∷ events) out = push_text-append events out
push_text-append (end_tag name ∷ events) out = elim (Bool-cases (ends_piece name)) [
  | inl piece ↦ rw piece (
      omega (
        arith,
        push_text-append events (out ++ (32 ∷ [])),
        push_text-append events (32 ∷ []),
        length-append out (32 ∷ []),
      ))
  | inr none_ ↦ rw none_ (push_text-append events out)
]

-- What is read of a part is within its budget.
abbrev IsWithinBudget : ℕ → Option Bytes → Type 0
IsWithinBudget budget none = Unit
IsWithinBudget budget (some xml) = length xml ≤ budget

read_part-IsWithinBudget :
    (budget : ℕ) (part : Part) → IsWithinBudget budget (read_part budget part)
unfolding read_part
read_part-IsWithinBudget budget part = elim (Bool-cases (leb budget (length part.readable))) [
  | inl more ↦ rw more (elim (Bool-cases (is_utf8 (take budget part.readable))) [
    | inl valid ↦ rw valid (omega (arith, length-take budget part.readable))
    | inr bad ↦ rw bad tt
  ])
  | inr all ↦ rw all (elim (Bool-cases part.fails) [
    | inl fails ↦ rw fails tt
    | inr reads ↦ rw reads (elim (Bool-cases (is_utf8 part.readable)) [
      | inl valid ↦ rw valid (ground arith)
      | inr bad ↦ rw bad tt
    ])
  ])
]

module _ (formats : Formats) (limits : Limits) (shorter : IsShorter formats) where
  pushed-le :
      (out : Bytes) (read : Option Bytes)
      → length out ≤ limits.max_text_bytes
      → IsWithinBudget (limits.max_text_bytes - length out) read
      → length (pushed formats limits out read) ≤ limits.max_text_bytes
  pushed-le out none h b = h
  pushed-le out (some xml) h b =
      omega (arith, push_text-append (formats.read_xml xml) out, shorter xml, h, b)

  with_part-le :
      (out : Bytes) (part : Option Part)
      → length out ≤ limits.max_text_bytes
      → length (with_part formats limits out part) ≤ limits.max_text_bytes
  with_part-le out none h = h
  with_part-le out (some part) h =
      pushed-le out (read_part (limits.max_text_bytes - length out) part) h
        (read_part-IsWithinBudget _ part)

  read_parts-le :
      (archive : Archive) (names : List Bytes) (out : Bytes)
      → length out ≤ limits.max_text_bytes
      → length (read_parts formats limits archive names out) ≤ limits.max_text_bytes
  unfolding read_parts
  read_parts-le archive [] out h = h
  read_parts-le archive (name ∷ names) out h =
      elim (Bool-cases (leb limits.max_text_bytes (length out))) [
        | inl full ↦ rw full h
        | inr room ↦
            rw room (read_parts-le archive names _ (with_part-le out (archive.by_name name) h))
      ]

  abbrev IsSmall : ExtractError ⊎ Bytes → Type 0
  IsSmall (inl error) = Unit
  IsSmall (inr content) = length content ≤ limits.max_text_bytes

  unless_blank-IsSmall :
      (out : Bytes) → length out ≤ limits.max_text_bytes → IsSmall (unless_blank formats limits out)
  unless_blank-IsSmall out h = elim (Bool-cases (is_blank (length out) out)) [
    | inl blank ↦ rw blank tt
    | inr more ↦ rw more h
  ]

  archive_text-IsSmall : (a : Bytes ⊎ Archive) → IsSmall (archive_text formats limits a)
  archive_text-IsSmall (inl error) = tt
  archive_text-IsSmall (inr archive) = elim (Bool-cases (is_empty (wanted_names archive.names))) [
    | inl nothing ↦ rw nothing tt
    | inr some_ ↦ rw some_ (unless_blank-IsSmall _ (read_parts-le archive _ [] (omega arith)))
  ]

  office_text-IsSmall : (bytes : Bytes) → IsSmall (office_text formats limits bytes)
  unfolding office_text
  office_text-IsSmall bytes = archive_text-IsSmall (formats.open_zip bytes)

  not_over :
      (r : ExtractError ⊎ Bytes) (content : Bytes)
      → r ≡ inr content
      → IsSmall r
      → ltb limits.max_text_bytes (length content) ≡ false
  not_over (inl error) content e h = absurd (ground arith)
  not_over (inr c) content e h =
      subst (λ x. ltb limits.max_text_bytes (length x) ≡ false) (inr-injective c content e)
        (le-ltb (length c) limits.max_text_bytes h)

  small_content :
      (r : ExtractError ⊎ Bytes) (content : Bytes)
      → r ≡ inr content
      → IsSmall r
      → length content ≤ limits.max_text_bytes
  small_content (inl error) content e h = absurd (ground arith)
  small_content (inr c) content e h =
      subst (λ x. length x ≤ limits.max_text_bytes) (inr-injective c content e) h

  -- Where the XML reader reports no more bytes than the XML it is given has: for an Office document
  -- within the input limit that yields a text, `extract` returns all of that text, which is within
  -- the text limit, and does not mark it as truncated, also where a part was read only up to the
  -- limit.
  pub extract-office_text :
      (bytes content : Bytes)
      → length bytes ≤ limits.max_input_bytes
      → sniff formats bytes ≡ ooxml
      → office_text formats limits bytes ≡ inr content
      → (x : Extracted) × (extract formats limits bytes ≡ inr x)
        × (x.content ≡ content)
        × (length x.content ≤ limits.max_text_bytes)
        × (x.truncated ≡ false)
  unfolding extract
  extract-office_text bytes content within kind yields =
      let fits =
        not_over (office_text formats limits bytes) content yields (office_text-IsSmall bytes) in
      let small : ltb limits.max_input_bytes (length bytes) ≡ false =
        le-ltb (length bytes) limits.max_input_bytes within in
      let bound =
        small_content (office_text formats limits bytes) content yields
          (office_text-IsSmall bytes) in
      (
        result limits bytes ooxml content,
        rw (small, kind, yields) refl,
        rw fits refl,
        rw fits bound,
        fits,
      )
