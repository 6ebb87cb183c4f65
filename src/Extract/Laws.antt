-- ===== src/Extract/Laws.antt =====
-- What comes out of an attachment: bounded, cut where a character ends, and what an Office document
-- never says.
use sentin_npu.Core.Device.{is_char_boundary}
use sentin_npu.Extract.Document.{
  Kind, Extracted, sniff, cut_at, within_limit, extracted, extract, read_as,
}
use sentin_npu.Extract.Office.{Limits, ExtractError, too_large, Formats}
use sentin_npu.Prelude.{
  ℕ, zero, suc, ◌≤◌, ◌<◌, ◌≡◌, refl, ◌⊎◌, inl, inr, true, false, List, ◌++◌, ltb, ltb→lt, length,
  length-take, take, drop, take-append-drop, arith, Bytes, Bool-cases,
}

cut_at-le : (content : Bytes) (max : ℕ) → cut_at content max ≤ max
unfolding cut_at
cut_at-le content zero = omega arith
cut_at-le content (suc cut) = elim (Bool-cases (is_char_boundary content (suc cut))) [
  | inl at ↦ rw at (omega arith)
  | inr off ↦ rw off (omega (arith, cut_at-le content cut))
]

cut_at-boundary : (content : Bytes) (max : ℕ) → is_char_boundary content (cut_at content max) ≡ true
unfolding cut_at is_char_boundary
cut_at-boundary content zero = refl
cut_at-boundary content (suc cut) = elim (Bool-cases (is_char_boundary content (suc cut))) [
  | inl at ↦ rw at at
  | inr off ↦ rw off (cut_at-boundary content cut)
]

-- The whole content, or the part before a character boundary within the limit, and which of the two.
abbrev pub IsCut : Limits → Bytes → Extracted → Type 0
IsCut limits content x =
    ((x.truncated ≡ false) × (x.content ≡ content))
    ⊎ ((x.truncated ≡ true)
        × (limits.max_text_bytes < length content)
        × (x.content ++ drop (length x.content) content ≡ content)
        × (is_char_boundary content (length x.content) ≡ true))

length-take_le {ℓ} : {A : Type ℓ} (n : ℕ) (xs : List A) → n ≤ length xs → length (take n xs) ≡ n
length-take_le n xs h = omega (arith, length-take n xs, h)

-- What `extract` makes of a content.
abbrev pub result : Limits → Bytes → Kind → Bytes → Extracted
result limits bytes kind content = record {
  kind = kind;
  content = within_limit limits content;
  truncated = ltb limits.max_text_bytes (length content);
  input_bytes = length bytes;
}

result-IsCut :
    (limits : Limits) (bytes content : Bytes) (k : Kind)
    → (length (result limits bytes k content).content ≤ limits.max_text_bytes)
      × IsCut limits content (result limits bytes k content)
result-IsCut limits bytes content k =
    elim (Bool-cases (ltb limits.max_text_bytes (length content))) [
      | inl over ↦
          let more : limits.max_text_bytes < length content = ltb→lt _ _ over in
          let short = cut_at-le content limits.max_text_bytes in
          let size =
            length-take_le (cut_at content limits.max_text_bytes) content
              (omega (arith, short, more)) in
          rw over (
            omega (arith, size, short),
            inr (
              refl,
              more,
              rw size (take-append-drop (cut_at content limits.max_text_bytes) content),
              rw size (cut_at-boundary content limits.max_text_bytes),
            ),
          )
      | inr under ↦ rw under (ground arith, inl (refl, refl))
    ]

-- The answer to what reading came to: the same error, or a text of that kind and size within the limit.
abbrev pub IsAnswer :
    Limits → Bytes → Kind → ExtractError ⊎ Bytes → ExtractError ⊎ Extracted → Type 0
IsAnswer limits bytes k read answer =
    ((error : ExtractError) × (read ≡ inl error) × (answer ≡ inl error))
    ⊎ ((content : Bytes) × (x : Extracted) × (read ≡ inr content)
        × (answer ≡ inr x)
        × (x.kind ≡ k)
        × (x.input_bytes ≡ length bytes)
        × (length x.content ≤ limits.max_text_bytes)
        × IsCut limits content x)

extracted-IsAnswer :
    (limits : Limits) (bytes : Bytes) (k : Kind) (read : ExtractError ⊎ Bytes)
    → IsAnswer limits bytes k read (extracted limits bytes k read)
extracted-IsAnswer limits bytes k (inl error) = inl (error, refl, refl)
extracted-IsAnswer limits bytes k (inr content) =
    let (short, cut) = result-IsCut limits bytes content k in
    inr (content, result limits bytes k content, refl, refl, refl, refl, short, cut)

-- `extract` refuses an attachment over the input limit. Otherwise it passes on the error of reading it
-- as the kind it was taken for, or returns a text with that kind and the attachment's size; the text is
-- within the text limit, and it is all that was read or, with `truncated` set, the part of it before a
-- character boundary.
pub extract-IsAnswer :
    (formats : Formats) (limits : Limits) (bytes : Bytes)
    → ((limits.max_input_bytes < length bytes)
        × (extract formats limits bytes ≡ inl (too_large (length bytes) limits.max_input_bytes)))
      ⊎ ((length bytes ≤ limits.max_input_bytes)
          × IsAnswer limits bytes
              (sniff formats bytes)
              (read_as formats limits (sniff formats bytes) bytes)
              (extract formats limits bytes))
unfolding extract
extract-IsAnswer formats limits bytes =
    elim (Bool-cases (ltb limits.max_input_bytes (length bytes))) [
      | inl over ↦ rw over (inl (ltb→lt _ _ over, refl))
      | inr under ↦ rw under (inr (ground arith, extracted-IsAnswer limits bytes _ _))
    ]
