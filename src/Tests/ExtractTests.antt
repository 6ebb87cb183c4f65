-- ===== src/Tests/ExtractTests.antt =====
-- A document whose text is longer than the limit, one file of a code page, and what push_text does to
-- a word that is formatted in two parts.
use sentin_npu.Config
use sentin_npu.Core.Device.{panics}
use sentin_npu.Extract.Budget.{IsShorter, extract-office_text}
use sentin_npu.Extract.Document
use sentin_npu.Extract.Document.{ooxml, Extracted, sniff, extract, read_as, decode_text}
use sentin_npu.Extract.Laws.{IsAnswer, extract-IsAnswer}
use sentin_npu.Extract.Office
use sentin_npu.Extract.Office.{
  Limits, too_large, Part, Archive, XmlEvent, characters, end_tag, Formats, push_text, office_text,
}
use sentin_npu.Extract.Runs.{decode_text-run}
use sentin_npu.Extract.Utf8
use sentin_npu.Extract.Utf8.{from_utf8_lossy, from_utf16_lossy, replacement}
use sentin_npu.Prelude.{
  ◌≤◌, ◌<◌, ◌≡◌, ◌⊎◌, refl, inl, inr, [], ◌∷◌, ◌++◌, some, false, length, arith, Bytes, codes,
}

-- An XML reader that takes its input for the text of one element.
abbrev formats : Formats
formats = record {
  base64 = λ s. some s;
  open_zip = λ bytes. inr (record {
    names = some (codes "word/document.xml") ∷ [];
    by_name = λ name. some (record { readable = codes "PESEL 44051401359"; fails = false });
  });
  read_xml = λ xml. characters xml ∷ [];
  extract_text_from_mem = λ bytes. panics;
}

formats-IsShorter : IsShorter formats
unfolding push_text
formats-IsShorter xml = omega arith

abbrev limits : Limits
limits = record { max_input_bytes = 100; max_text_bytes = 10 }

abbrev document : Bytes
document = codes "PK" ++ (3 ∷ 4 ∷ [])

-- The number is cut after four digits, and the result does not say so.
extract-office_text_example :
    (x : Extracted) × (extract formats limits document ≡ inr x)
    × (x.content ≡ codes "PESEL 4405")
    × (length x.content ≤ 10)
    × (x.truncated ≡ false)
unfolding Config.starts_with Utf8.trailing Utf8.trail Utf8.char_at Utf8.valid Utf8.is_utf8
    Office.wanted_names Office.push_text Office.read_part Office.is_blank Office.read_parts
    Office.office_text Document.count_printable Document.looks_textual Document.sniff
extract-office_text_example =
    extract-office_text formats limits formats-IsShorter document (codes "PESEL 4405") (omega arith)
      refl refl

extract-IsAnswer_example :
    ((100 < length document)
      × (extract formats limits document ≡ inl (too_large (length document) 100)))
    ⊎ ((length document ≤ 100)
        × IsAnswer limits document
            (sniff formats document)
            (read_as formats limits (sniff formats document) document)
            (extract formats limits document))
extract-IsAnswer_example = extract-IsAnswer formats limits document

-- A name in Windows-1250, then a PESEL.
decode_text-run_example :
    decode_text ((163 ∷ 243 ∷ []) ++ (codes "; 44051401359" ++ (185 ∷ [])))
    ≡ decode_text (163 ∷ 243 ∷ []) ++ (codes "; 44051401359" ++ from_utf8_lossy (185 ∷ []))
unfolding Config.starts_with
decode_text-run_example =
    decode_text-run (163 ∷ 243 ∷ []) 59 (codes " 44051401359") (185 ∷ []) (ground arith)
      (ground arith) refl

-- One malformed part of two bytes, and one of one byte.
malformed : from_utf8_lossy (226 ∷ 130 ∷ 65 ∷ 255 ∷ []) ≡ replacement ++ (65 ∷ replacement)
unfolding Utf8.trailing Utf8.trail Utf8.char_at Utf8.lossy Utf8.from_utf8_lossy
malformed = refl

-- A pair of surrogates, and one that is alone.
surrogates :
    from_utf16_lossy (55357 ∷ 56832 ∷ 65 ∷ 55357 ∷ []) ≡ (240 ∷ 159 ∷ 152 ∷ 128 ∷ 65 ∷ replacement)
unfolding Utf8.encode Utf8.units_lossy Utf8.from_utf16_lossy
surrogates = refl

-- An address whose two halves are formatted differently is taken apart.
two_runs :
    push_text
      (characters (codes "jan@")
        ∷ end_tag (codes "t")
        ∷ characters (codes "ex.pl")
        ∷ end_tag (codes "t")
        ∷ [])
      []
    ≡ codes "jan@ ex.pl "
unfolding push_text
two_runs = refl
