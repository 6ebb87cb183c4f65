-- ===== src/Scan/Detect.antt =====
-- `detect` of deterministic.rs: the main loop.
use sentin_npu.Prelude.{
  ℕ, zero, suc, ◌+◌, ◌||◌, not, List, [], ◌∷◌, ◌++◌, Option, none, some, leb, ◌==◌, if◌then◌else◌,
  length, Bytes, is_ascii_alphabetic, is_ascii_digit,
}
use sentin_npu.Core.DataKind.{DataKind, iban, email}
use sentin_npu.Core.Finding.{Finding, Range}
use sentin_npu.Core.Layer.{deterministic}
use sentin_npu.Core.Validation.{Validation, checksum, pattern_only}
use sentin_npu.Scan.Cursor.{byte_is, starts_token, NumericMatch}
use sentin_npu.Scan.Email.{scan_email}
use sentin_npu.Scan.Iban.{scan_iban}
use sentin_npu.Scan.Numeric.{scan_numeric}
use sentin_npu.Scan.Vat.{scan_vat_eu}

unfoldable pub finding : Range → DataKind → Validation → ℕ → Finding
finding r k v c = record {
  span = r;
  kind = k;
  confidence = c;
  layer = deterministic;
  validation = v;
}

abbrev pub of_match : NumericMatch → Finding
of_match m = record {
  span = m.span;
  kind = m.kind;
  confidence = m.confidence;
  layer = deterministic;
  validation = m.validation;
}

-- Behind the IBAN scanner, which goes first: a VAT number begins alike and is shorter.
abbrev pub letters : Bytes → ℕ → Option Range → Option Finding
letters bytes index none = elim (scan_vat_eu bytes index) [
  | some m ↦ some (of_match m)
  | none ↦ none
]
letters bytes index (some r) = some (finding r iban checksum 100)

unfoldable pub scan_letters : Bytes → ℕ → Option Finding
unfolding finding
scan_letters bytes index = letters bytes index (scan_iban bytes index)

unfoldable pub scan_number : Bytes → ℕ → Option Finding
scan_number bytes index = elim (scan_numeric bytes index) [
  | some m ↦ some (of_match m)
  | none ↦ none
]

abbrev pub email_finding : Option Range → Option Finding
email_finding none = none
email_finding (some r) = some (finding r email pattern_only 90)

-- The body of the loop: what is found at `index`, if anything. The three tests on the byte exclude
-- one another.
unfoldable pub scan_at : Bytes → ℕ → Option Finding
unfolding scan_letters scan_number finding
scan_at bytes index =
    if byte_is (λ b. b == b'@') bytes index
    then email_finding (scan_email bytes index)
    else if not (starts_token bytes index)
    then none
    else if byte_is is_ascii_alphabetic bytes index
    then scan_letters bytes index
    else if byte_is is_ascii_digit bytes index || byte_is (λ b. b == b'+') bytes index
    then scan_number bytes index
    else none

-- Where the loop goes on: behind what was found, else at the next byte.
abbrev pub next_index : Option Finding → ℕ → ℕ
next_index none index = index + 1
next_index (some f) index = f.span.end

abbrev pub push : Option Finding → List Finding → List Finding
push none findings = findings
push (some f) findings = findings ++ f ∷ []

-- The loop. `none` means that the fuel ran out, which `Scan.Laws` excludes.
unfoldable pub detect_from : ℕ → Bytes → ℕ → List Finding → Option (List Finding)
unfolding scan_at
detect_from zero bytes index findings = none
detect_from (suc fuel) bytes index findings =
    let found = scan_at bytes index in
    let rest = detect_from fuel bytes (next_index found index) (push found findings) in
    if leb (length bytes) index then some findings else rest

abbrev pub finished : Option (List Finding) → List Finding
finished none = []
finished (some fs) = fs

unfoldable pub detect : Bytes → List Finding
detect text = finished (detect_from (suc (length text)) text 0 [])
