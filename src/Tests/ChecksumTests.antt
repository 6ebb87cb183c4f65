-- ===== src/Tests/ChecksumTests.antt =====
-- The check digits and the generators on concrete numbers.
use sentin_npu.Checksums
use sentin_npu.Checksums.{
  weighted_sum, pesel_weights, nip_weights, weights_9, weights_14, luhn_sum, iban_remainder,
}
use sentin_npu.Checksums.Iban.{iban_number, iban_iff}
use sentin_npu.Checksums.Substitution.{put, pesel-put, nip-put, luhn-put}
use sentin_npu.Prelude.{
  ℕ, ◌%◌, ◌≤◌, ◌≡◌, ◌↔◌, refl, true, false, List, [], ◌∷◌, ◌++◌, some, arith, length, all, take,
  drop, codes, Bytes, is_ascii_digit, is_ascii_uppercase,
}
use mathlib.Core.Option
use sentin_npu.TestData
use sentin_npu.TestData.Pesel.{pesel-pesel}

-- 44051401359, split before its fourth digit.
pesel_44 : Checksums.pesel (put (4 ∷ 4 ∷ 0 ∷ []) (1 ∷ 4 ∷ 0 ∷ 1 ∷ 3 ∷ 5 ∷ 9 ∷ []) 5) ≡ true
unfolding Checksums.pesel Checksums.pesel_date_is_valid Checksums.two Checksums.century_month
    Checksums.days_in_month Checksums.is_leap_year Checksums.weighted_sum
pesel_44 = refl

pesel-put_example :
    Checksums.pesel (put (4 ∷ 4 ∷ 0 ∷ []) (1 ∷ 4 ∷ 0 ∷ 1 ∷ 3 ∷ 5 ∷ 9 ∷ []) 6) ≡ false
pesel-put_example =
    pesel-put (4 ∷ 4 ∷ 0 ∷ []) (1 ∷ 4 ∷ 0 ∷ 1 ∷ 3 ∷ 5 ∷ 9 ∷ []) 5 6 (omega arith) (omega arith)
      (omega arith) pesel_44

nip_65 : Checksums.nip (put (6 ∷ 5 ∷ 1 ∷ []) (7 ∷ 1 ∷ 8 ∷ 0 ∷ 0 ∷ 3 ∷ []) 1) ≡ true
unfolding Checksums.nip Checksums.weighted_sum
nip_65 = refl

nip-put_example : Checksums.nip (put (6 ∷ 5 ∷ 1 ∷ []) (7 ∷ 1 ∷ 8 ∷ 0 ∷ 0 ∷ 3 ∷ []) 7) ≡ false
nip-put_example =
    nip-put (6 ∷ 5 ∷ 1 ∷ []) (7 ∷ 1 ∷ 8 ∷ 0 ∷ 0 ∷ 3 ∷ []) 1 7 (omega arith) (omega arith)
      (omega arith) nip_65

abbrev visa_tail : List ℕ
visa_tail = 1 ∷ 1 ∷ 1 ∷ 1 ∷ 1 ∷ 1 ∷ 1 ∷ 1 ∷ 1 ∷ 1 ∷ 1 ∷ 1 ∷ 1 ∷ 1 ∷ []

visa : Checksums.luhn (put (4 ∷ []) visa_tail 1) ≡ true
unfolding Checksums.luhn Checksums.luhn_sum Checksums.luhn_value
visa = refl

luhn-put_example : Checksums.luhn (put (4 ∷ []) visa_tail 9) ≡ false
luhn-put_example = luhn-put (4 ∷ []) visa_tail 1 9 (omega arith) (omega arith) (omega arith) visa

abbrev account : Bytes
account = codes "PL61109010140000071219812874"

iban_iff_example : (Checksums.iban account ≡ true) ↔ (
    (15 ≤ length account)
    × (length account ≤ 34)
    × (all is_ascii_uppercase (take 2 account) ≡ true)
    × (all is_ascii_digit (take 2 (drop 2 account)) ≡ true)
    × (Option.map (λ m. m % 97) (iban_number (drop 4 account ++ take 4 account) 0) ≡ some 1))
iban_iff_example = iban_iff account

remainder_61 : iban_remainder (codes "PL61") 96 ≡ some 31
unfolding Checksums.iban_remainder Checksums.iban_step is_ascii_digit is_ascii_uppercase
remainder_61 = refl

pesel-pesel_example :
    (Checksums.pesel (TestData.pesel 2002 2 28 1446) ≡ true)
    × (Checksums.century_month (Checksums.two (TestData.pesel 2002 2 28 1446) 2) ≡ some (2000, 2))
    × (Checksums.two (TestData.pesel 2002 2 28 1446) 0 ≡ 2)
    × (Checksums.two (TestData.pesel 2002 2 28 1446) 4 ≡ 28)
unfolding Checksums.days_in_month Checksums.is_leap_year
pesel-pesel_example =
    pesel-pesel 2002 2 28 1446 (omega arith) (omega arith) (omega arith) (omega arith) (omega arith)
      (omega arith)

abbrev nip_base : List ℕ
nip_base = 6 ∷ 5 ∷ 1 ∷ 1 ∷ 7 ∷ 1 ∷ 8 ∷ 0 ∷ 0 ∷ []

abbrev regon_base : List ℕ
regon_base = 1 ∷ 2 ∷ 3 ∷ 4 ∷ 5 ∷ 6 ∷ 7 ∷ 8 ∷ []

abbrev long_base : List ℕ
long_base = 1 ∷ 2 ∷ 3 ∷ 4 ∷ 5 ∷ 6 ∷ 7 ∷ 8 ∷ 5 ∷ 1 ∷ 2 ∷ 3 ∷ 4 ∷ []
