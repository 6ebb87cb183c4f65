-- ===== src/TestData/Pesel.antt =====
-- A generated PESEL is valid for every date that a PESEL can carry.
use sentin_npu.Prelude.{
  ℕ, zero, suc, ◌+◌, ◌-◌, ◌*◌, ◌/◌, ◌%◌, ◌≤◌, ◌<◌, ◌≡◌, true, List, [], ◌∷◌, ◌++◌, arith, ltb,
  Bool-cases, inl, inr, some, refl,
}
use sentin_npu.Checksums
use sentin_npu.Checksums.{
  pesel_weights, weighted_sum, days_in_month, pesel_date_is_valid, century_month, two,
}
use sentin_npu.TestData
use sentin_npu.TestData.{decimal, padded, month_offset, pesel_base}

decimal_1 : (f n : ℕ) → 1 ≤ f → n < 10 → decimal f n ≡ n ∷ []
unfolding decimal
decimal_1 zero n hf h = absurd (omega arith)
decimal_1 (suc f) n hf h = ground arith

decimal_2 : (f n : ℕ) → 2 ≤ f → 10 ≤ n → n < 100 → decimal f n ≡ n / 10 ∷ n % 10 ∷ []
unfolding decimal
decimal_2 zero n hf lo hi = absurd (omega arith)
decimal_2 (suc f) n hf lo hi = ground (arith, decimal_1 f (n / 10))

decimal_3 :
    (f n : ℕ) → 3 ≤ f → 100 ≤ n → n < 1000 → decimal f n ≡ n / 100 ∷ n / 10 % 10 ∷ n % 10 ∷ []
unfolding decimal
decimal_3 zero n hf lo hi = absurd (omega arith)
decimal_3 (suc f) n hf lo hi = ground (arith, decimal_2 f (n / 10))

decimal_4 :
    (f n : ℕ)
    → 4 ≤ f
    → 1000 ≤ n
    → n < 10000
    → decimal f n ≡ n / 1000 ∷ n / 100 % 10 ∷ n / 10 % 10 ∷ n % 10 ∷ []
unfolding decimal
decimal_4 zero n hf lo hi = absurd (omega arith)
decimal_4 (suc f) n hf lo hi = ground (arith, decimal_3 f (n / 10))

padded_2 : (n : ℕ) → n < 100 → padded 2 n ≡ n / 10 ∷ n % 10 ∷ []
unfolding padded
padded_2 n h = elim (Bool-cases (ltb n 10)) [
  | inl short ↦ rw (decimal_1 (suc n) n (omega arith) (ground arith)) (ground arith)
  | inr long ↦ rw (decimal_2 (suc n) n (ground arith) (ground arith) h) (ground arith)
]

padded_4 : (n : ℕ) → n < 10000 → padded 4 n ≡ n / 1000 ∷ n / 100 % 10 ∷ n / 10 % 10 ∷ n % 10 ∷ []
unfolding padded
padded_4 n h = elim (Bool-cases (ltb n 10)) [
  | inl one ↦ rw (decimal_1 (suc n) n (omega arith) (ground arith)) (ground arith)
  | inr ten ↦ elim (Bool-cases (ltb n 100)) [
    | inl two ↦ rw (decimal_2 (suc n) n (ground arith) (ground arith) (ground arith)) (ground arith)
    | inr hundred ↦ elim (Bool-cases (ltb n 1000)) [
      | inl three ↦
          rw (decimal_3 (suc n) n (ground arith) (ground arith) (ground arith)) (ground arith)
      | inr four ↦ rw (decimal_4 (suc n) n (ground arith) (ground arith) h) (ground arith)
    ]
  ]
]

pesel_base_digits :
    (year month day serial : ℕ)
    → month + month_offset year < 100
    → day < 100
    → pesel_base year month day serial
      ≡ year % 100 / 10
        ∷ year % 100 % 10
        ∷ (month + month_offset year) / 10
        ∷ (month + month_offset year) % 10
        ∷ day / 10
        ∷ day % 10
        ∷ serial % 10000 / 1000
        ∷ serial % 10000 / 100 % 10
        ∷ serial % 10000 / 10 % 10
        ∷ serial % 10000 % 10
        ∷ []
unfolding pesel_base
pesel_base_digits year month day serial hm hd = rw (
  padded_2 (year % 100) (omega arith),
  padded_2 (month + month_offset year) hm,
  padded_2 day hd,
  padded_4 (serial % 10000) (omega arith),
)

days_in_month-le : (year month : ℕ) → days_in_month year month ≤ 31
unfolding days_in_month
days_in_month-le year month = ground arith

month_offset-le : (year : ℕ) → month_offset year ≤ 80
unfolding month_offset
month_offset-le year = ground arith

-- The month's offset gives the century back.
century_month-month_offset :
    (year month : ℕ)
    → 1800 ≤ year
    → year < 2300
    → 1 ≤ month
    → month ≤ 12
    → century_month (month + month_offset year) ≡ some (year - year % 100, month)
unfolding century_month month_offset
century_month-month_offset year month y0 y1 m0 m1 = ground arith

date_digits :
    (year month day y m d : ℕ) (rest : List ℕ)
    → century_month m ≡ some (year - year % 100, month)
    → y ≡ year % 100
    → 1 ≤ d
    → d ≤ days_in_month year month
    → pesel_date_is_valid (y / 10 ∷ y % 10 ∷ m / 10 ∷ m % 10 ∷ d / 10 ∷ d % 10 ∷ rest) ≡ true
unfolding pesel_date_is_valid
date_digits year month day y m d rest c ey d0 d1 =
    let month_digits : m / 10 * 10 + m % 10 ≡ m = omega arith in
    let day_digits : d / 10 * 10 + d % 10 ≡ d = omega arith in
    let year_digits : year - year % 100 + (y / 10 * 10 + y % 10) ≡ year = omega arith in
    ground (arith, month_digits, c, year_digits, day_digits)

-- With the right check digit behind ten digits only the date is left to check.
pesel_check :
    (a b c d e f g h i j : ℕ)
    → let base = a ∷ b ∷ c ∷ d ∷ e ∷ f ∷ g ∷ h ∷ i ∷ j ∷ [] in
      let whole = base ++ ((10 - weighted_sum pesel_weights base % 10) % 10) ∷ [] in
      Checksums.pesel whole ≡ pesel_date_is_valid whole
unfolding Checksums.pesel
pesel_check a b c d e f g h i j = ground arith

two_digits : (n : ℕ) → n / 10 * 10 + n % 10 ≡ n
two_digits n = omega arith

-- For a date of the calendar from 1800 to 2299: the generated PESEL is accepted, and the date can be
-- read back from its digits: the month's two digits give the century and the month, the first two
-- the year in the century, and the fifth and sixth the day.
pub pesel-pesel :
    (year month day serial : ℕ)
    → 1800 ≤ year
    → year < 2300
    → 1 ≤ month
    → month ≤ 12
    → 1 ≤ day
    → day ≤ days_in_month year month
    → (Checksums.pesel (TestData.pesel year month day serial) ≡ true)
      × (century_month (two (TestData.pesel year month day serial) 2)
          ≡ some (year - year % 100, month))
      × (two (TestData.pesel year month day serial) 0 ≡ year % 100)
      × (two (TestData.pesel year month day serial) 4 ≡ day)
unfolding TestData.pesel two
pesel-pesel year month day serial y0 y1 m0 m1 d0 d1 =
    let digits =
      pesel_base_digits year month day serial (omega (arith, month_offset-le year))
        (omega (arith, days_in_month-le year month)) in
    let month_back = century_month-month_offset year month y0 y1 m0 m1 in
    (
      rw (digits, pesel_check)
          (date_digits year month day (year % 100) (month + month_offset year) day _ month_back refl
            d0 d1),
      rw (digits, two_digits (month + month_offset year)) month_back,
      rw (digits, two_digits (year % 100)) refl,
      rw (digits, two_digits day) refl,
    )
