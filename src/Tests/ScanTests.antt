-- ===== src/Tests/ScanTests.antt =====
-- Runs of the layer-1 scanner on short texts.
use sentin_npu.Core.DataKind.{payment_card, DataKind, pesel, email, phone_pl, nip, iban, vat_eu}
use sentin_npu.Core.Finding.{Finding}
use sentin_npu.Prelude.{ℕ, suc, List, [], ◌∷◌, map, Bytes, codes, ◌≡◌, refl, length, some, All}
use sentin_npu.Scan.Laws.Detect.{detect_from-detect, detect-All-IsSound, InOrder, detect-InOrder}
use sentin_npu.Scan.Laws.Sound.{IsSound}
use sentin_npu.Prelude.{
  is_ascii_digit, is_ascii_uppercase, is_ascii_lowercase, is_ascii_alphabetic,
  is_ascii_alphanumeric, to_ascii_uppercase, to_ascii_lowercase,
}
use sentin_npu.Checksums
use sentin_npu.Scan.Cursor
use sentin_npu.Scan.Digits
use sentin_npu.Scan.Numeric
use sentin_npu.Scan.Vat
use sentin_npu.Scan.Email
use sentin_npu.Scan.Iban
use sentin_npu.Scan.Detect

abbrev summary : List Finding → List (DataKind × ℕ × ℕ)
summary = map (λ f. (f.kind, f.span.start, f.span.end))

-- The prefix +48 of the phone number is followed by a space, and the span leaves it out.
scan_mixed :
    summary (Detect.detect (codes "PESEL 44051401359, jan@ex.pl, tel. +48 123 456 789"))
    ≡ (pesel, 6, 17) ∷ (email, 19, 28) ∷ (phone_pl, 39, 50) ∷ []
unfolding is_ascii_digit is_ascii_uppercase is_ascii_lowercase is_ascii_alphabetic
    is_ascii_alphanumeric to_ascii_uppercase to_ascii_lowercase Checksums.weighted_sum
    Checksums.is_leap_year Checksums.days_in_month Checksums.century_month Checksums.two
    Checksums.pesel_date_is_valid Checksums.pesel Checksums.nip Checksums.regon_weights
    Checksums.regon Checksums.luhn_value Checksums.luhn_sum Checksums.luhn Checksums.iban_step
    Checksums.iban_remainder Checksums.iban Cursor.advance_while Cursor.retreat_while
    Cursor.starts_token Cursor.ends_token Digits.collect Digits.trim_separators
    Digits.collect_digits Numeric.prefix Numeric.card_prefix_is_known Numeric.after_prefix
    Numeric.phone_run Numeric.scan_phone_with_prefix Numeric.classify Numeric.numeric_run
    Numeric.scan_numeric Vat.digits Vat.alnum Vat.vat_national_part_is_valid Vat.vat_end
    Vat.vat_match Vat.scan_vat_eu Email.is_local Email.is_domain Email.last_dot Email.has_double_dot
    Email.local_start Email.domain_end Email.plausible Email.scan_email Iban.collect Iban.groups_end
    Iban.collect_groups Iban.iban_match Iban.scan_iban Detect.finding Detect.scan_letters
    Detect.scan_number Detect.scan_at Detect.detect_from Detect.detect
scan_mixed = refl

-- Without groups the same number is not found at all.
scan_phone : summary (Detect.detect (codes "tel. +48 123456789")) ≡ []
unfolding is_ascii_digit is_ascii_uppercase is_ascii_lowercase is_ascii_alphabetic
    is_ascii_alphanumeric to_ascii_uppercase to_ascii_lowercase Checksums.weighted_sum
    Checksums.is_leap_year Checksums.days_in_month Checksums.century_month Checksums.two
    Checksums.pesel_date_is_valid Checksums.pesel Checksums.nip Checksums.regon_weights
    Checksums.regon Checksums.luhn_value Checksums.luhn_sum Checksums.luhn Checksums.iban_step
    Checksums.iban_remainder Checksums.iban Cursor.advance_while Cursor.retreat_while
    Cursor.starts_token Cursor.ends_token Digits.collect Digits.trim_separators
    Digits.collect_digits Numeric.prefix Numeric.card_prefix_is_known Numeric.after_prefix
    Numeric.phone_run Numeric.scan_phone_with_prefix Numeric.classify Numeric.numeric_run
    Numeric.scan_numeric Vat.digits Vat.alnum Vat.vat_national_part_is_valid Vat.vat_end
    Vat.vat_match Vat.scan_vat_eu Email.is_local Email.is_domain Email.last_dot Email.has_double_dot
    Email.local_start Email.domain_end Email.plausible Email.scan_email Iban.collect Iban.groups_end
    Iban.collect_groups Iban.iban_match Iban.scan_iban Detect.finding Detect.scan_letters
    Detect.scan_number Detect.scan_at Detect.detect_from Detect.detect
scan_phone = refl

-- A card number in an address: two findings, the second around the first.
scan_overlap :
    summary (Detect.detect (codes "jan.4111111111111111@x.pl"))
    ≡ (payment_card, 4, 20) ∷ (email, 0, 25) ∷ []
unfolding is_ascii_digit is_ascii_uppercase is_ascii_lowercase is_ascii_alphabetic
    is_ascii_alphanumeric to_ascii_uppercase to_ascii_lowercase Checksums.weighted_sum
    Checksums.is_leap_year Checksums.days_in_month Checksums.century_month Checksums.two
    Checksums.pesel_date_is_valid Checksums.pesel Checksums.nip Checksums.regon_weights
    Checksums.regon Checksums.luhn_value Checksums.luhn_sum Checksums.luhn Checksums.iban_step
    Checksums.iban_remainder Checksums.iban Cursor.advance_while Cursor.retreat_while
    Cursor.starts_token Cursor.ends_token Digits.collect Digits.trim_separators
    Digits.collect_digits Numeric.prefix Numeric.card_prefix_is_known Numeric.after_prefix
    Numeric.phone_run Numeric.scan_phone_with_prefix Numeric.classify Numeric.numeric_run
    Numeric.scan_numeric Vat.digits Vat.alnum Vat.vat_national_part_is_valid Vat.vat_end
    Vat.vat_match Vat.scan_vat_eu Email.is_local Email.is_domain Email.last_dot Email.has_double_dot
    Email.local_start Email.domain_end Email.plausible Email.scan_email Iban.collect Iban.groups_end
    Iban.collect_groups Iban.iban_match Iban.scan_iban Detect.finding Detect.scan_letters
    Detect.scan_number Detect.scan_at Detect.detect_from Detect.detect
scan_overlap = refl

scan_accounts :
    summary (Detect.detect (codes "PL6511718003 CZ12345678 PL61 1090 1014 0000 0712 1981 2874"))
    ≡ (nip, 0, 12) ∷ (vat_eu, 13, 23) ∷ (iban, 24, 58) ∷ []
unfolding is_ascii_digit is_ascii_uppercase is_ascii_lowercase is_ascii_alphabetic
    is_ascii_alphanumeric to_ascii_uppercase to_ascii_lowercase Checksums.weighted_sum
    Checksums.is_leap_year Checksums.days_in_month Checksums.century_month Checksums.two
    Checksums.pesel_date_is_valid Checksums.pesel Checksums.nip Checksums.regon_weights
    Checksums.regon Checksums.luhn_value Checksums.luhn_sum Checksums.luhn Checksums.iban_step
    Checksums.iban_remainder Checksums.iban Cursor.advance_while Cursor.retreat_while
    Cursor.starts_token Cursor.ends_token Digits.collect Digits.trim_separators
    Digits.collect_digits Numeric.prefix Numeric.card_prefix_is_known Numeric.after_prefix
    Numeric.phone_run Numeric.scan_phone_with_prefix Numeric.classify Numeric.numeric_run
    Numeric.scan_numeric Vat.digits Vat.alnum Vat.vat_national_part_is_valid Vat.vat_end
    Vat.vat_match Vat.scan_vat_eu Email.is_local Email.is_domain Email.last_dot Email.has_double_dot
    Email.local_start Email.domain_end Email.plausible Email.scan_email Iban.collect Iban.groups_end
    Iban.collect_groups Iban.iban_match Iban.scan_iban Detect.finding Detect.scan_letters
    Detect.scan_number Detect.scan_at Detect.detect_from Detect.detect
scan_accounts = refl

abbrev sample : Bytes
sample = codes "PESEL 44051401359, jan@ex.pl, tel. +48 123 456 789"

detect_from-detect_example :
    Detect.detect_from (suc (length sample)) sample 0 [] ≡ some (Detect.detect sample)
detect_from-detect_example = detect_from-detect sample

detect-All-IsSound_example : All (IsSound sample) (Detect.detect sample)
detect-All-IsSound_example = detect-All-IsSound sample

detect-InOrder_example : InOrder 0 (Detect.detect sample)
detect-InOrder_example = detect-InOrder sample
