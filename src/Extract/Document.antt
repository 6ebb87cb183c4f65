-- ===== src/Extract/Document.antt =====
-- gateway/crates/sentin-extract/src/lib.rs: what an attachment is, and the text that is read from it.
use sentin_npu.Audit.Cef.{number}
use sentin_npu.Config.{starts_with}
use sentin_npu.Core.Device.{is_char_boundary}
use sentin_npu.Extract.Office.{
  Limits, ExtractError, too_large, unreadable, failed, not_base64, Formats, looks_like_ooxml,
  office_text, pdf_text, is_there, default_limits,
}
use sentin_npu.Extract.Utf8.{is_utf8, from_utf8_lossy, from_utf16_lossy}
use sentin_npu.Gateway.Names.{after_first, or_whole}
use sentin_npu.Inspect.Types
use sentin_npu.Inspect.Types.{Extractor}
use sentin_npu.Prelude.{
  ℕ, zero, suc, ◌+◌, ◌*◌, Bool, true, false, ◌||◌, ◌⊎◌, inl, inr, List, [], ◌∷◌, ◌++◌, Option, none,
  some, ltb, leb, between, ◌==◌, if◌then◌else◌, any, is_empty, length, take, drop, Bytes, codes,
}

pub data Kind : Type 0 where
  pdf ooxml text opaque : Kind

abbrev pub name : Kind → Bytes
name pdf = codes "pdf"
name ooxml = codes "ooxml"
name text = codes "text"
name opaque = codes "opaque"

-- The messages of `ExtractError`.
abbrev pub to_string : ExtractError → Bytes
to_string (too_large size limit) =
    codes "attachment is "
    ++ number size
    ++ codes " bytes, over the "
    ++ number limit
    ++ codes " byte limit"
to_string (unreadable what) = codes "nothing to read in a " ++ what ++ codes " attachment"
to_string (failed message) = codes "could not read the attachment: " ++ message
to_string not_base64 = codes "attachment is not valid base64"

pub record Extracted : Type 0 where
  pub kind : Kind
  pub content : Bytes
  pub truncated : Bool
  pub input_bytes : ℕ

abbrev pub is_ascii_whitespace : ℕ → Bool
is_ascii_whitespace b = b == 32 || (b == 9 || (b == 10 || (b == 12 || b == 13)))

unfoldable pub cleaned : Bytes → Bytes
cleaned [] = []
cleaned (b ∷ s) = if is_ascii_whitespace b then cleaned s else b ∷ cleaned s

-- The payload of a `data:` URI, or the whole.
unfoldable pub encoded_part : Bytes → Bytes
unfolding starts_with after_first
encoded_part payload =
    if starts_with payload (codes "data:")
    then or_whole (drop 5 payload) (after_first (codes ";base64,") (drop 5 payload))
    else payload

abbrev pub or_not_base64 : Option Bytes → ExtractError ⊎ Bytes
or_not_base64 none = inl not_base64
or_not_base64 (some bytes) = inr bytes

-- `decode`
unfoldable pub decode_payload : Formats → Bytes → ExtractError ⊎ Bytes
unfolding cleaned encoded_part
decode_payload formats payload = or_not_base64 (formats.base64 (cleaned (encoded_part payload)))

-- The byte order mark: `true` for little-endian.
abbrev pub utf16_bom : Bytes → Option Bool
utf16_bom bytes =
    if starts_with bytes (255 ∷ 254 ∷ [])
    then some true
    else if starts_with bytes (254 ∷ 255 ∷ [])
    then some false
    else none

abbrev pub is_printable : ℕ → Bool
is_printable b = b == 9 || (b == 10 || (b == 13 || (between 32 126 b || between 160 255 b)))

unfoldable pub count_printable : Bytes → ℕ
count_printable [] = 0
count_printable (b ∷ s) = if is_printable b then suc (count_printable s) else count_printable s

unfoldable pub looks_textual : Bytes → Bool
unfolding count_printable starts_with is_utf8
looks_textual bytes =
    if is_there (utf16_bom bytes)
    then true
    else if is_empty bytes || any (λ b. b == 0) bytes
    then false
    else if is_utf8 bytes
    then true
    else leb (length bytes * 9) (count_printable bytes * 10)

abbrev pub binary_magic : List Bytes
binary_magic =
    (137 ∷ codes "PNG")
    ∷ (255 ∷ 216 ∷ 255 ∷ [])
    ∷ codes "GIF8"
    ∷ codes "RIFF"
    ∷ (31 ∷ 139 ∷ [])
    ∷ codes "%!PS"
    ∷ []

unfoldable pub sniff : Formats → Bytes → Kind
unfolding looks_textual starts_with
sniff formats bytes =
    if starts_with bytes (codes "%PDF-")
    then pdf
    else if starts_with bytes (codes "PK" ++ (3 ∷ 4 ∷ []))
    then (if looks_like_ooxml formats bytes then ooxml else opaque)
    else if any (starts_with bytes) binary_magic
    then opaque
    else if looks_textual bytes
    then text
    else opaque

-- `chunks_exact(2)`, each read as a unit.
unfoldable pub units : Bool → Bytes → List ℕ
units little_endian [] = []
units little_endian (a ∷ []) = []
units little_endian (a ∷ b ∷ s) =
    (if little_endian then a + b * 256 else a * 256 + b) ∷ units little_endian s

abbrev pub without_mark : Bytes → Bytes
without_mark bytes = if starts_with bytes (239 ∷ 187 ∷ 191 ∷ []) then drop 3 bytes else bytes

abbrev pub decode_marked : Option Bool → Bytes → Bytes
decode_marked (some little_endian) bytes = from_utf16_lossy (units little_endian (drop 2 bytes))
decode_marked none bytes = from_utf8_lossy (without_mark bytes)

unfoldable pub decode_text : Bytes → Bytes
unfolding units from_utf8_lossy from_utf16_lossy starts_with
decode_text bytes = decode_marked (utf16_bom bytes) bytes

abbrev pub read_as : Formats → Limits → Kind → Bytes → ExtractError ⊎ Bytes
read_as formats limits pdf bytes = pdf_text formats bytes
read_as formats limits ooxml bytes = office_text formats limits bytes
read_as formats limits text bytes = inr (decode_text bytes)
read_as formats limits opaque bytes = inl (unreadable (codes "binary"))

-- The `while` loop: back to a character boundary.
unfoldable pub cut_at : Bytes → ℕ → ℕ
unfolding is_char_boundary
cut_at content zero = zero
cut_at content (suc cut) =
    let before = cut_at content cut in
    if is_char_boundary content (suc cut) then suc cut else before

abbrev pub within_limit : Limits → Bytes → Bytes
within_limit limits content =
    if ltb limits.max_text_bytes (length content)
    then take (cut_at content limits.max_text_bytes) content
    else content

abbrev pub extracted : Limits → Bytes → Kind → ExtractError ⊎ Bytes → ExtractError ⊎ Extracted
extracted limits bytes kind (inl error) = inl error
extracted limits bytes kind (inr content) = inr (record {
  kind = kind;
  content = within_limit limits content;
  truncated = ltb limits.max_text_bytes (length content);
  input_bytes = length bytes;
})

unfoldable pub extract : Formats → Limits → Bytes → ExtractError ⊎ Extracted
unfolding sniff decode_text cut_at office_text
extract formats limits bytes =
    if ltb limits.max_input_bytes (length bytes)
    then inl (too_large (length bytes) limits.max_input_bytes)
    else extracted limits bytes (sniff formats bytes)
        (read_as formats limits (sniff formats bytes) bytes)

-- What the pipeline calls of this crate, an error as its message.
abbrev pub decoded_or_message : ExtractError ⊎ Bytes → Bytes ⊎ Bytes
decoded_or_message (inl error) = inl (to_string error)
decoded_or_message (inr bytes) = inr bytes

abbrev pub extracted_or_message : ExtractError ⊎ Extracted → Bytes ⊎ Types.Extracted
extracted_or_message (inl error) = inl (to_string error)
extracted_or_message (inr x) = inr (record {
  text = x.content;
  kind = name x.kind;
  input_bytes = x.input_bytes;
  truncated = x.truncated;
})

unfoldable pub extractor : Formats → (Bytes → Bytes) → Extractor
unfolding decode_payload sniff extract
extractor formats digest = record {
  decode = λ payload. decoded_or_message (decode_payload formats payload);
  sniff = λ bytes. name (sniff formats bytes);
  extract = λ bytes max_input_bytes.
      extracted_or_message
        (extract formats (record default_limits { max_input_bytes = max_input_bytes }) bytes);
  digest = digest;
}
