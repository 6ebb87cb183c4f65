-- ===== src/Extract/Office.antt =====
-- ooxml.rs and pdf.rs of gateway/crates/sentin-extract/src. Opening an archive, reading XML and
-- reading a PDF are other packages' and parameters here.
use sentin_npu.Config.{starts_with, text_eq}
use sentin_npu.Core.Device.{Outcome, returns, panics}
use sentin_npu.Extract.Utf8.{is_utf8}
use sentin_npu.Trim.{white_spaces}
use sentin_npu.Prelude.{
  ℕ, zero, suc, ◌-◌, ◌*◌, Bool, true, false, ◌⊎◌, inl, inr, List, [], ◌∷◌, ◌++◌, Option, none, some,
  leb, if◌then◌else◌, any, find, is_empty, length, take, drop, Bytes, codes,
}

pub record Limits : Type 0 where
  pub max_input_bytes : ℕ
  pub max_text_bytes : ℕ

abbrev pub default_limits : Limits
default_limits = record { max_input_bytes = 10 * 1024 * 1024; max_text_bytes = 1024 * 1024 }

pub data ExtractError : Type 0 where
  too_large : ℕ → ℕ → ExtractError
  unreadable : Bytes → ExtractError
  failed : Bytes → ExtractError
  not_base64 : ExtractError

-- An entry of an archive: the bytes that can be read of it, and whether reading then fails.
pub record Part : Type 0 where
  pub readable : Bytes
  pub fails : Bool

-- The names by index, `none` where an entry cannot be opened, and the entries by name.
pub record Archive : Type 0 where
  pub names : List (Option Bytes)
  pub by_name : Bytes → Option Part

-- What the XML reader reports up to the end or the first error; a tag with its local name.
pub data XmlEvent : Type 0 where
  characters : Bytes → XmlEvent
  end_tag : Bytes → XmlEvent
  other : XmlEvent

-- The packages that know the formats; an error is its text.
pub record Formats : Type 0 where
  pub base64 : Bytes → Option Bytes
  pub open_zip : Bytes → Bytes ⊎ Archive
  pub read_xml : Bytes → List XmlEvent
  pub extract_text_from_mem : Bytes → Outcome (Bytes ⊎ Bytes)

-- Entries whose text is worth reading, matched as prefixes.
abbrev pub wanted : List Bytes
wanted =
    codes "word/document.xml"
    ∷ codes "word/header"
    ∷ codes "word/footer"
    ∷ codes "word/comments.xml"
    ∷ codes "xl/sharedStrings.xml"
    ∷ codes "xl/worksheets/sheet"
    ∷ codes "ppt/slides/slide"
    ∷ codes "content.xml"
    ∷ []

abbrev pub is_there {ℓ} : {A : Type ℓ} → Option A → Bool
is_there none = false
is_there (some a) = true

abbrev pub is_office : Bytes ⊎ Archive → Bool
is_office (inl error) = false
is_office (inr archive) =
    if is_there (archive.by_name (codes "[Content_Types].xml"))
    then true
    else is_there (archive.by_name (codes "mimetype"))

abbrev pub looks_like_ooxml : Formats → Bytes → Bool
looks_like_ooxml formats bytes = is_office (formats.open_zip bytes)

-- The loop over the indices.
unfoldable pub wanted_names : List (Option Bytes) → List Bytes
unfolding starts_with
wanted_names [] = []
wanted_names (none ∷ names) = wanted_names names
wanted_names (some name ∷ names) =
    if any (starts_with name) wanted then name ∷ wanted_names names else wanted_names names

-- The tags that end a piece of text.
abbrev pub ends_piece : Bytes → Bool
ends_piece name = any (text_eq name) (
    codes "p"
    ∷ codes "tc"
    ∷ codes "tr"
    ∷ codes "br"
    ∷ codes "si"
    ∷ codes "t"
    ∷ codes "v"
    ∷ codes "c"
    ∷ codes "text-p"
    ∷ [])

-- `push_text`, on what the reader reports.
unfoldable pub push_text : List XmlEvent → Bytes → Bytes
push_text [] out = out
push_text (characters s ∷ events) out = push_text events (out ++ s)
push_text (other ∷ events) out = push_text events out
push_text (end_tag name ∷ events) out =
    push_text events (if ends_piece name then out ++ (32 ∷ []) else out)

-- `entry.take(budget).read_to_string(…)`
unfoldable pub read_part : ℕ → Part → Option Bytes
unfolding is_utf8
read_part budget part =
    if leb budget (length part.readable)
    then (if is_utf8 (take budget part.readable) then some (take budget part.readable) else none)
    else if part.fails
    then none
    else if is_utf8 part.readable
    then some part.readable
    else none

-- `trim().is_empty()`: nothing but white space.
unfoldable pub is_blank : ℕ → Bytes → Bool
unfolding starts_with
is_blank zero s = is_empty s
is_blank (suc fuel) [] = true
is_blank (suc fuel) (b ∷ s) = elim (find (starts_with (b ∷ s)) white_spaces) [
  | none ↦ false
  | some w ↦ is_blank fuel (drop (length w) (b ∷ s))
]

module _ (formats : Formats) (limits : Limits) where
  abbrev pub pushed : Bytes → Option Bytes → Bytes
  pushed out none = out
  pushed out (some xml) = push_text (formats.read_xml xml) out

  -- One round: at most what is left of the limit is read, and an entry that cannot be is skipped.
  abbrev pub with_part : Bytes → Option Part → Bytes
  with_part out none = out
  with_part out (some part) = pushed out (read_part (limits.max_text_bytes - length out) part)

  unfoldable pub read_parts : Archive → List Bytes → Bytes → Bytes
  unfolding push_text read_part
  read_parts archive [] out = out
  read_parts archive (name ∷ names) out =
      if leb limits.max_text_bytes (length out)
      then out
      else read_parts archive names (with_part out (archive.by_name name))

  abbrev pub unless_blank : Bytes → ExtractError ⊎ Bytes
  unless_blank out =
      if is_blank (length out) out
      then inl (unreadable (codes "office document with no readable text"))
      else inr out

  abbrev pub archive_text : Bytes ⊎ Archive → ExtractError ⊎ Bytes
  archive_text (inl error) = inl (failed error)
  archive_text (inr archive) =
      let names = wanted_names archive.names in
      if is_empty names
      then inl (unreadable (codes "office document with no text parts"))
      else unless_blank (read_parts archive names [])

  -- `ooxml::text`
  unfoldable pub office_text : Bytes → ExtractError ⊎ Bytes
  unfolding wanted_names is_blank read_parts
  office_text bytes = archive_text (formats.open_zip bytes)

-- `pdf::text`: a panic of the parser is a failure.
abbrev pub parsed_text : Outcome (Bytes ⊎ Bytes) → ExtractError ⊎ Bytes
parsed_text (returns (inr content)) = inr content
parsed_text (returns (inl error)) = inl (failed error)
parsed_text panics =
    inl (failed (codes "the PDF parser panicked; the document is treated as unreadable"))

abbrev pub pdf_text : Formats → Bytes → ExtractError ⊎ Bytes
pdf_text formats bytes = parsed_text (formats.extract_text_from_mem bytes)
