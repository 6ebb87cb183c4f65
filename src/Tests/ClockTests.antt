-- ===== src/Tests/ClockTests.antt =====
-- A leap day, and the beginning.
use sentin_npu.Record.Clock
use sentin_npu.Record.Clock.{civil_from_days, rfc3339}
use sentin_npu.Record.Clock.Calendar.{IsDate, civil_from_days-IsDate}
use sentin_npu.TestData
use sentin_npu.Prelude.{◌≡◌, ◌+◌, refl, codes}

leap_day_2000 : rfc3339 951827696 ≡ codes "2000-02-29T12:34:56Z"
unfolding TestData.decimal TestData.zeros TestData.padded Clock.civil_from_days Clock.rfc3339
leap_day_2000 = refl

epoch : rfc3339 0 ≡ codes "1970-01-01T00:00:00Z"
unfolding TestData.decimal TestData.zeros TestData.padded Clock.civil_from_days Clock.rfc3339
epoch = refl

civil_from_days-IsDate_example : IsDate (11016 + 719163) (civil_from_days 11016)
civil_from_days-IsDate_example = civil_from_days-IsDate 11016
