-- ===== src/Scan/Numeric.antt =====
-- `scan_numeric`, `scan_phone_with_prefix` and `card_prefix_is_known` of deterministic.rs.
use mathlib.Core.List.{foldl}
use sentin_npu.Prelude.{
  ℕ, ◌+◌, ◌*◌, Bool, false, ◌||◌, ◌&&◌, not, List, Option, none, some, ltb, ◌==◌, between,
  if◌then◌else◌, length, take, is_empty, Bytes, codes,
}
use sentin_npu.Checksums
use sentin_npu.Core.DataKind.{DataKind, pesel, nip, regon, payment_card, phone_pl}
use sentin_npu.Core.Validation.{Validation, checksum, pattern_only}
use sentin_npu.Scan.Cursor.{byte_is, slice, bytes_eq, ends_token, NumericMatch, range}
use sentin_npu.Scan.Digits.{Run, max_digits, collect_digits}

-- The closure `prefix`: the number that the first `n` digits write.
unfoldable pub prefix : List ℕ → ℕ → ℕ
prefix digits n = foldl (λ acc d. acc * 10 + d) 0 (take n digits)

unfoldable pub card_prefix_is_known : List ℕ → Bool
unfolding prefix
card_prefix_is_known digits =
    let len = length digits in
    let p1 = prefix digits 1 in
    let p2 = prefix digits 2 in
    let p4 = prefix digits 4 in
    if p1 == 4
    then len == 13 || (len == 16 || len == 19)
    else if p1 == 5
    then between 51 55 p2 && len == 16
    else if p2 == 34 || p2 == 37
    then len == 15
    else if between 22 27 p2 && between 2221 2720 p4
    then len == 16
    else if p2 == 65
    then between 16 19 len
    else if p2 == 36 || (p2 == 38 || p2 == 39)
    then between 14 19 len
    else if p2 == 30
    then between 14 19 len
    else if p2 == 35 && between 3528 3589 p4
    then between 16 19 len
    else if p2 == 60 && p4 == 6011
    then between 16 19 len
    else false

-- Where the number behind a `+48` or `0048` begins.
unfoldable pub after_prefix : Bytes → ℕ → Option ℕ
after_prefix bytes start =
    if byte_is (λ b. b == b'+') bytes start
      && bytes_eq (slice bytes (start + 1) (start + 3)) (codes "48")
    then some (start + 3)
    else if bytes_eq (slice bytes start (start + 4)) (codes "0048")
    then some (start + 4)
    else none

-- The part of `scan_phone_with_prefix` behind the prefix.
unfoldable pub phone_run : Bytes → ℕ → Run → Option NumericMatch
phone_run bytes start run =
    if length run.digits == 9 && ends_token bytes run.end
    then some (record {
      span = range start run.end;
      kind = phone_pl;
      validation = pattern_only;
      confidence = 80;
    })
    else none

abbrev pub phone_from : Bytes → ℕ → Option ℕ → Option NumericMatch
phone_from bytes start none = none
phone_from bytes start (some from) = phone_run bytes start (collect_digits bytes from)

unfoldable pub scan_phone_with_prefix : Bytes → ℕ → Option NumericMatch
scan_phone_with_prefix bytes start = phone_from bytes start (after_prefix bytes start)

-- The match on the number of digits, each arm behind its guard.
unfoldable pub classify : List ℕ → Bool → Option (DataKind × Validation × ℕ)
classify digits separated =
    let len = length digits in
    if len == 11 && Checksums.pesel digits
    then some (pesel, checksum, 100)
    else if len == 10 && Checksums.nip digits
    then some (nip, checksum, 100)
    else if (len == 9 || len == 14) && Checksums.regon digits
    then some (regon, checksum, 100)
    else if len == 9 && separated
    then some (phone_pl, pattern_only, 60)
    else if between 13 19 len && (Checksums.luhn digits && card_prefix_is_known digits)
    then some (payment_card, checksum, 100)
    else none

-- The arm's result over the span of the run.
abbrev pub matched : ℕ → Run → Option (DataKind × Validation × ℕ) → Option NumericMatch
matched start run none = none
matched start run (some (k, v, c)) =
    some (record { span = range start run.end; kind = k; validation = v; confidence = c })

-- What `scan_numeric` makes of a run of digits.
unfoldable pub numeric_run : Bytes → ℕ → Run → Option NumericMatch
numeric_run bytes start run =
    if not (ends_token bytes run.end) || (is_empty run.digits || ltb max_digits (length run.digits))
    then none
    else matched start run (classify run.digits run.separated)

-- Behind the phone scanner: a run that begins at the byte itself.
abbrev pub or_numeric : Bytes → ℕ → Option NumericMatch → Option NumericMatch
or_numeric bytes start (some m) = some m
or_numeric bytes start none =
    if byte_is (λ b. b == b'+') bytes start
    then none
    else numeric_run bytes start (collect_digits bytes start)

unfoldable pub scan_numeric : Bytes → ℕ → Option NumericMatch
scan_numeric bytes start = or_numeric bytes start (scan_phone_with_prefix bytes start)
