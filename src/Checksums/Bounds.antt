-- ===== src/Checksums/Bounds.antt =====
-- The size of the sums of checksums.rs, which are `u32` there, for any bytes in place of the digits.
use sentin_npu.Prelude.{
  ℕ, ◌+◌, ◌-◌, ◌*◌, ◌%◌, ◌^◌, ◌≤◌, ◌<◌, ◌≡◌, Bool, true, false, not, List, [], ◌∷◌, arith, length,
  All, some,
}
use sentin_npu.Checksums.{
  weighted_sum, pesel_weights, nip_weights, weights_9, weights_14, luhn_value, luhn_sum, iban_step,
  iban_remainder,
}

abbrev pub IsByte : ℕ → Type 0
IsByte d = d ≤ 255

sum : List ℕ → ℕ
sum [] = 0
sum (x ∷ xs) = x + sum xs

weighted_sum-le : (ws ds : List ℕ) → All IsByte ds → weighted_sum ws ds ≤ 255 * sum ws
unfolding weighted_sum sum
weighted_sum-le [] ds h = omega arith
weighted_sum-le (w ∷ ws) [] h = omega arith
weighted_sum-le (w ∷ ws) (d ∷ ds) (hd, h) = grind (arith, weighted_sum-le ws ds h)

-- The weighted sums of PESEL, NIP and both forms of REGON stay far below 2^32.
pub weighted_sum-lt-u32 :
    (ds : List ℕ)
    → All IsByte ds
    → (weighted_sum pesel_weights ds < 2 ^ 32)
      × (weighted_sum nip_weights ds < 2 ^ 32)
      × (weighted_sum weights_9 ds < 2 ^ 32)
      × (weighted_sum weights_14 ds < 2 ^ 32)
unfolding sum
weighted_sum-lt-u32 ds h = (
  omega (arith, weighted_sum-le pesel_weights ds h),
  omega (arith, weighted_sum-le nip_weights ds h),
  omega (arith, weighted_sum-le weights_9 ds h),
  omega (arith, weighted_sum-le weights_14 ds h),
)

luhn_value-le : (odd : Bool) (d : ℕ) → d ≤ 255 → luhn_value odd d ≤ 501
unfolding luhn_value
luhn_value-le true d h = ground arith
luhn_value-le false d h = omega arith

-- The Luhn sum of `n` bytes is at most `501 * n`, so below 2^32 for every text under eight
-- megabytes.
pub luhn_sum-le : (odd : Bool) (ds : List ℕ) → All IsByte ds → luhn_sum odd ds ≤ 501 * length ds
unfolding luhn_sum
luhn_sum-le odd [] h = omega arith
luhn_sum-le odd (d ∷ ds) (hd, h) = omega (arith, luhn_value-le odd d hd, luhn_sum-le (not odd) ds h)

-- Each round of the IBAN loop keeps the remainder below 97.
pub iban_remainder-lt : (s : List ℕ) (r : ℕ) {m : ℕ} → r < 97 → iban_remainder s r ≡ some m → m < 97
unfolding iban_remainder iban_step
iban_remainder-lt [] r h e = ground arith
iban_remainder-lt (b ∷ s) r {m} h e = ground (
  arith,
  iban_remainder-lt s ((r * 10 + (b - b'0')) % 97) {m = m},
  iban_remainder-lt s ((r * 100 + (b - b'A' + 10)) % 97) {m = m},
)
