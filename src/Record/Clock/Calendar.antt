-- ===== src/Record/Clock/Calendar.antt =====
-- The date of a day is the one that the Gregorian calendar gives it.
use mathlib.Core.Path.{subst}
use sentin_npu.Checksums.{days_in_month, is_leap_year}
use sentin_npu.Record.Clock.{year_of_era, day_of_year, of_month, civil_from_days, era, day_of_era}
use sentin_npu.Prelude.{
  ℕ, ◌+◌, ◌-◌, ◌*◌, ◌/◌, ◌%◌, ◌≤◌, ◌<◌, ◌≡◌, refl, sym, ap, ◌∙◌, inl, inr, true, false, ltb, lt→ltb,
  ltb→lt, leb, ◌==◌, ==_iff, ◌≢◌, if◌then◌else◌, arith, Bool-cases,
}

-- Days of a common year before a month.
abbrev pub days_before_month : ℕ → ℕ
days_before_month m =
    if m == 1
    then 0
    else if m == 2
    then 31
    else if m == 3
    then 59
    else if m == 4
    then 90
    else if m == 5
    then 120
    else if m == 6
    then 151
    else if m == 7
    then 181
    else if m == 8
    then 212
    else if m == 9
    then 243
    else if m == 10
    then 273
    else if m == 11
    then 304
    else 334

-- The number of a date, counted from the first of January of the year 1.
abbrev pub day_number : ℕ → ℕ → ℕ → ℕ
day_number y m d =
    365 * (y - 1)
    + (y - 1) / 4
    - (y - 1) / 100
    + (y - 1) / 400
    + days_before_month m
    + (if ltb 2 m then (if is_leap_year y then 1 else 0) else 0)
    + d

year_of_era-le : (doe : ℕ) → doe < 146097 → year_of_era doe ≤ 399
year_of_era-le doe h = omega arith

before-le : (doe y : ℕ) → doe < 146097 → y ≡ year_of_era doe → 365 * y + y / 4 - y / 100 ≤ doe
before-le doe y h e = omega (arith, e, h)

day_of_year-le : (doe y : ℕ) → doe < 146097 → y ≡ year_of_era doe → day_of_year doe y ≤ 365
day_of_year-le doe y h e = omega (arith, e, h)

-- The last day is there only before a leap day's end.
last_day :
    (doe y : ℕ)
    → doe < 146097
    → y ≡ year_of_era doe
    → day_of_year doe y ≡ 365
    → ((y + 1) % 4 ≡ 0) × (((y + 1) % 100 ≡ 0) → (y + 1) % 400 ≡ 0)
last_day doe y h e l = (omega (arith, e, h, l), λ k. omega (arith, e, h, l, k))

-- From March to December, by the number of the month behind March.
days_before_month-march : (mp : ℕ) → mp < 10 → days_before_month (mp + 3) ≡ 59 + (153 * mp + 2) / 5
days_before_month-march mp h = ground arith

days_in_month-march :
    (y mp : ℕ) → mp < 10 → days_in_month y (mp + 3) + (153 * mp + 2) / 5 ≡ (153 * (mp + 1) + 2) / 5
unfolding days_in_month
days_in_month-march y mp h = ground arith

leap_day : ℕ → ℕ
leap_day y = if is_leap_year y then 1 else 0

leap_day_lem :
    (y : ℕ)
    → 1 ≤ y
    → leap_day y + (y - 1) / 4 + (y - 1) / 400 + y / 100 ≡ y / 4 + y / 400 + (y - 1) / 100
unfolding leap_day is_leap_year
leap_day_lem y h = ground arith

-- A date that exists, with its number.
abbrev pub IsDate : ℕ → ℕ × ℕ × ℕ → Type 0
IsDate n (y, m, d) = (day_number y m d ≡ n) × (1 ≤ m) × (m ≤ 12) × (1 ≤ d) × (d ≤ days_in_month y m)

-- The number of a day counted from the first of March of the year 0.
abbrev IsCounted : ℕ → ℕ → ℕ → Type 0
IsCounted y doy n = 365 * y + y / 4 + y / 400 + doy ≡ n + y / 100 + 305

march-IsDate :
    (y doy mp n : ℕ)
    → 1 ≤ y
    → mp ≡ (5 * doy + 2) / 153
    → mp < 10
    → IsCounted y doy n
    → IsDate n (y, mp + 3, doy - (153 * mp + 2) / 5 + 1)
unfolding leap_day
march-IsDate y doy mp n hy e h c = (
  rw (lt→ltb 2 (mp + 3) (omega arith), days_before_month-march mp h)
      (omega (arith, e, h, c, leap_day_lem y hy)),
  omega arith,
  omega (arith, h),
  omega arith,
  omega (arith, e, days_in_month-march y mp h),
)

january-IsDate :
    (y doy n : ℕ)
    → 1 ≤ y
    → 10 ≡ (5 * doy + 2) / 153
    → IsCounted y doy n
    → IsDate n (y + 1, 1, doy - (153 * 10 + 2) / 5 + 1)
unfolding days_in_month
january-IsDate y doy n hy e c =
    (omega (arith, e, c), omega arith, omega arith, omega arith, omega (arith, e))

clash : false ≢ true
clash e = ground arith

short : (doy : ℕ) → doy ≤ 365 → (doy == 365) ≡ false → doy - 337 + 1 ≤ 28
short doy h d = ground arith

february-IsDate :
    (y doy n : ℕ)
    → 1 ≤ y
    → 11 ≡ (5 * doy + 2) / 153
    → doy ≤ 365
    → (doy ≡ 365 → is_leap_year (y + 1) ≡ true)
    → IsCounted y doy n
    → IsDate n (y + 1, 2, doy - (153 * 11 + 2) / 5 + 1)
unfolding days_in_month
february-IsDate y doy n hy e k leap c = (
  omega (arith, e, c),
  omega arith,
  omega arith,
  omega arith,
  elim (Bool-cases (is_leap_year (y + 1))) [
    | inl yes_ ↦ rw yes_ (omega (arith, e, k))
    | inr no_ ↦ rw no_ (elim (Bool-cases (doy == 365)) [
      | inl last ↦ absurd (clash (sym no_ ∙ leap ((==_iff doy 365).0 last)))
      | inr less ↦ short doy k less
    ])
  ],
)

later_year : (mp : ℕ) → leb (mp + 3) 2 ≡ false
later_year mp = ground arith

past_ten :
    (doy mp : ℕ)
    → doy ≤ 365
    → mp ≡ (5 * doy + 2) / 153
    → ltb mp 10 ≡ false
    → (mp == 10) ≡ false
    → mp ≡ 11
past_ten doy mp h e a b = let high : 11 ≤ mp = ground arith in omega (arith, high, e, h)

of_month-IsDate :
    (y doy mp n : ℕ)
    → 1 ≤ y
    → doy ≤ 365
    → (doy ≡ 365 → is_leap_year (y + 1) ≡ true)
    → IsCounted y doy n
    → mp ≡ (5 * doy + 2) / 153
    → IsDate n (of_month y doy mp)
of_month-IsDate y doy mp n hy k leap c e = elim (Bool-cases (ltb mp 10)) [
  | inl spring ↦ rw (spring, later_year mp) (march-IsDate y doy mp n hy e (ltb→lt mp 10 spring) c)
  | inr winter ↦ elim (Bool-cases (mp == 10)) [
    | inl tenth ↦
        let ten = sym ((==_iff mp 10).0 tenth) in
        subst (λ q. IsDate n (of_month y doy q)) ten (january-IsDate y doy n hy (ten ∙ e) c)
    | inr other ↦
        let eleven = sym (past_ten doy mp k e winter other) in
        subst (λ q. IsDate n (of_month y doy q)) eleven
          (february-IsDate y doy n hy (eleven ∙ e) k leap c)
  ]
]

leap_by_400 : (y : ℕ) → y % 400 ≡ 0 → is_leap_year y ≡ true
unfolding is_leap_year
leap_by_400 y h = ground arith

leap_by_4 : (y : ℕ) → y % 4 ≡ 0 → (y % 100 == 0) ≡ false → is_leap_year y ≡ true
unfolding is_leap_year
leap_by_4 y h k = rw (h, k) refl

same_century : (y e : ℕ) → (y + e * 400 + 1) % 100 ≡ (y + 1) % 100
same_century y e = omega arith

-- The leap years repeat every 400 years.
leap_era :
    (y e : ℕ)
    → (y + 1) % 4 ≡ 0
    → ((y + 1) % 100 ≡ 0 → (y + 1) % 400 ≡ 0)
    → is_leap_year (y + e * 400 + 1) ≡ true
leap_era y e four hundred = elim (Bool-cases ((y + 1) % 100 == 0)) [
  | inl h ↦ leap_by_400 (y + e * 400 + 1) (omega (arith, hundred ((==_iff ((y + 1) % 100) 0).0 h)))
  | inr h ↦
      leap_by_4 (y + e * 400 + 1) (omega (arith, four)) (ap (λ r. r == 0) (same_century y e) ∙ h)
]

counted :
    (z e doe y : ℕ)
    → z + 719468 ≡ e * 146097 + doe
    → y ≤ 399
    → 365 * y + y / 4 - y / 100 ≤ doe
    → IsCounted (y + e * 400) (day_of_year doe y) (z + 719163)
counted z e doe y split limit before = omega (arith, split, limit, before)

-- `civil_from_days` gives a day, numbered from 1970, the date that has its number in the Gregorian
-- calendar: one of twelve months, and a day that this month has in that year.
pub civil_from_days-IsDate : (z : ℕ) → IsDate (z + 719163) (civil_from_days z)
unfolding civil_from_days
civil_from_days-IsDate z =
    let doe = day_of_era z in
    let small : doe < 146097 = omega arith in
    let late : 4 ≤ era z = omega arith in
    let yoe = year_of_era doe in
    of_month-IsDate (yoe + era z * 400) (day_of_year doe yoe) _ (z + 719163) (omega (arith, late))
      (day_of_year-le doe yoe small refl)
      (λ l.
        let (four, hundred) = last_day doe yoe small refl l in leap_era yoe (era z) four hundred)
      (counted z (era z) doe yoe (omega arith) (year_of_era-le doe small)
        (before-le doe yoe small refl))
      refl
