-- ===== src/Record/Clock.antt =====
-- The time stamp of an event: `now_rfc3339` and `civil_from_days` of audit_sink.rs. The clock is an
-- argument, in seconds since 1970; a day number is then no less than 0, and `div_euclid` and `rem_euclid`
-- are the division and the remainder.
pub mod Calendar
use sentin_npu.Prelude.{
  ℕ, [], ◌+◌, ◌-◌, ◌*◌, ◌/◌, ◌%◌, ◌∷◌, ◌++◌, map, ltb, leb, if◌then◌else◌, Bytes,
}
use sentin_npu.TestData.{padded}

abbrev pub era : ℕ → ℕ
era z = (z + 719468) / 146097

abbrev pub day_of_era : ℕ → ℕ
day_of_era z = (z + 719468) % 146097

abbrev pub year_of_era : ℕ → ℕ
year_of_era doe = (doe - doe / 1460 + doe / 36524 - doe / 146096) / 365

-- The day within a year that begins in March.
abbrev pub day_of_year : ℕ → ℕ → ℕ
day_of_year doe yoe = doe - (365 * yoe + yoe / 4 - yoe / 100)

-- Year, month and day; the year of a day in January or February is the next.
abbrev pub of_month : ℕ → ℕ → ℕ → ℕ × ℕ × ℕ
of_month y doy mp =
    let d = doy - (153 * mp + 2) / 5 + 1 in
    let m = if ltb mp 10 then mp + 3 else mp - 9 in (if leb m 2 then y + 1 else y, m, d)

abbrev pub civil_of : ℕ → ℕ → ℕ × ℕ × ℕ
civil_of y doy = of_month y doy ((5 * doy + 2) / 153)

unfoldable pub civil_from_days : ℕ → ℕ × ℕ × ℕ
civil_from_days z =
    let yoe = year_of_era (day_of_era z) in
    civil_of (yoe + era z * 400) (day_of_year (day_of_era z) yoe)

abbrev pub written : ℕ → ℕ → Bytes
written width n = map (λ d. 48 + d) (padded width n)

unfoldable pub rfc3339 : ℕ → Bytes
unfolding civil_from_days padded
rfc3339 secs =
    let rem = secs % 86400 in
    let (year, month, day) = civil_from_days (secs / 86400) in
    written 4 year
    ++ (b'-' ∷ written 2 month)
    ++ (b'-' ∷ written 2 day)
    ++ (b'T' ∷ written 2 (rem / 3600))
    ++ (b':' ∷ written 2 (rem % 3600 / 60))
    ++ (b':' ∷ written 2 (rem % 60))
    ++ (b'Z' ∷ [])
