-- ===== src/Scan/Vat.antt =====
-- `scan_vat_eu` and `vat_national_part_is_valid` of deterministic.rs.
use sentin_npu.Prelude.{
  ℕ, zero, suc, ◌+◌, ◌-◌, Bool, false, ◌||◌, ◌&&◌, not, map, Option, none, some, leb, ◌==◌, between,
  if◌then◌else◌, length, take, drop, all, is_empty, Bytes, codes, is_ascii_digit,
  is_ascii_uppercase, is_ascii_alphanumeric,
}
use sentin_npu.Checksums
use sentin_npu.Core.DataKind.{nip, vat_eu}
use sentin_npu.Core.Validation.{checksum, pattern_only}
use sentin_npu.Scan.Cursor.{byte_is, slice, bytes_eq, ends_token, NumericMatch, range}

abbrev pub max_vat_part : ℕ
max_vat_part = 12

-- The closures `digits` and `alnum`.
unfoldable pub digits : Bytes → Bool
digits s = not (is_empty s) && all is_ascii_digit s

unfoldable pub alnum : Bytes → Bool
alnum s = not (is_empty s) && all (λ b. is_ascii_digit b || is_ascii_uppercase b) s

unfoldable pub vat_national_part_is_valid : Bytes → Bytes → Bool
unfolding digits alnum
vat_national_part_is_valid country part =
    let len = length part in
    if bytes_eq country (codes "AT")
    then len == 9 && (byte_is (λ b. b == b'U') part 0 && digits (drop 1 part))
    else if bytes_eq country (codes "BE")
    then len == 10 && (digits part && byte_is (λ b. b == b'0' || b == b'1') part 0)
    else if bytes_eq country (codes "BG")
    then (len == 9 || len == 10) && digits part
    else if bytes_eq country (codes "CY")
    then len == 9 && (digits (take 8 part) && byte_is is_ascii_uppercase part 8)
    else if bytes_eq country (codes "CZ")
    then between 8 10 len && digits part
    else if bytes_eq country (codes "DE")
        || (bytes_eq country (codes "EE")
            || (bytes_eq country (codes "EL")
                || (bytes_eq country (codes "GR") || bytes_eq country (codes "PT"))))
    then len == 9 && digits part
    else if bytes_eq country (codes "DK")
        || (bytes_eq country (codes "FI")
            || (bytes_eq country (codes "HU")
                || (bytes_eq country (codes "LU")
                    || (bytes_eq country (codes "MT") || bytes_eq country (codes "SI")))))
    then len == 8 && digits part
    else if bytes_eq country (codes "ES")
    then len == 9
      && (alnum part && (byte_is is_ascii_uppercase part 0 || byte_is is_ascii_uppercase part 8))
    else if bytes_eq country (codes "FR")
    then len == 11 && (alnum (take 2 part) && digits (drop 2 part))
    else if bytes_eq country (codes "HR")
        || (bytes_eq country (codes "IT") || bytes_eq country (codes "LV"))
    then len == 11 && digits part
    else if bytes_eq country (codes "IE")
    then (len == 8 || len == 9) && (byte_is is_ascii_digit part 0 && alnum part)
    else if bytes_eq country (codes "LT")
    then (len == 9 || len == 12) && digits part
    else if bytes_eq country (codes "NL")
    then len == 12
      && (digits (take 9 part) && (byte_is (λ b. b == b'B') part 9 && digits (drop 10 part)))
    else if bytes_eq country (codes "RO")
    then between 6 10 len && digits part
    else if bytes_eq country (codes "SE")
    then len == 12 && digits part
    else if bytes_eq country (codes "SK")
    then len == 10 && digits part
    else if bytes_eq country (codes "XI")
    then (len == 9 || len == 12) && digits part
    else false

-- The loop over the national part, which begins at `from`.
unfoldable pub vat_end : ℕ → Bytes → ℕ → ℕ → ℕ
vat_end zero bytes from end = end
vat_end (suc rounds) bytes from end =
    let next = vat_end rounds bytes from (end + 1) in
    if byte_is is_ascii_alphanumeric bytes end && leb (end - from) max_vat_part then next else end

-- What is made of a country code and a national part that ends at `end`.
unfoldable pub vat_match : Bytes → Bytes → ℕ → ℕ → Option NumericMatch
vat_match country part start end =
    if bytes_eq country (codes "PL")
    then if length part == 10
        && (all is_ascii_digit part && Checksums.nip (map (λ b. b - b'0') part))
      then some
          (record { span = range start end; kind = nip; validation = checksum; confidence = 100 })
      else none
    else if vat_national_part_is_valid country part
    then some (record {
      span = range start end;
      kind = vat_eu;
      validation = pattern_only;
      confidence = 70;
    })
    else none

unfoldable pub scan_vat_eu : Bytes → ℕ → Option NumericMatch
unfolding vat_end vat_match
scan_vat_eu bytes start =
    if not (leb (start + 2) (length bytes))
    then none
    else if not (all is_ascii_uppercase (slice bytes start (start + 2)))
    then none
    else let end = vat_end (length bytes - (start + 2)) bytes (start + 2) (start + 2) in
      if not (ends_token bytes end)
      then none
      else vat_match (slice bytes start (start + 2)) (slice bytes (start + 2) end) start end
