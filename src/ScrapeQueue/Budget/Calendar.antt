-- ===== src/ScrapeQueue/Budget/Calendar.antt =====
-- scrape_queue/budget.py: the day of an instant, the next one, and the billing cycle.
-- Instants are seconds since 1970-01-01 UTC, which is the time zone of the coordinator's clock.
use homez.Prelude.{ℕ, ◌+◌, ◌-◌, ◌*◌, ◌/◌, ◌%◌, Bool, ◌&&◌, ltb, ◌==◌, if◌then◌else◌}

pub record Date : Type 0 where
  pub year : ℕ
  pub month : ℕ
  pub day : ℕ

-- `date.__eq__`
abbrev pub date_eq : Date → Date → Bool
date_eq a b = (a.year == b.year) && (a.month == b.month) && (a.day == b.day)

abbrev pub day_number : ℕ → ℕ
day_number now = now / 86400

-- `_next_utc_day`
unfoldable pub next_utc_day : ℕ → ℕ
next_utc_day now = (day_number now + 1) * 86400

-- The proleptic Gregorian calendar of `datetime`, with years that begin in March: the year of
-- the 400-year era, and the date of a day of that year.
abbrev year_of_era : ℕ → ℕ
year_of_era doe = (doe - doe / 1460 + doe / 36524 - doe / 146096) / 365

abbrev march_date : ℕ → ℕ → Date
march_date year doy =
    let mp = (5 * doy + 2) / 153 in
    let day = doy - (153 * mp + 2) / 5 + 1 in
    if ltb mp 10
    then record { year = year; month = mp + 3; day = day }
    else record { year = year + 1; month = mp - 9; day = day }

-- `now.year`, `now.month` and `now.day`, from the days since 1970-01-01
unfoldable pub civil_date : ℕ → Date
civil_date days =
    let z = days + 719468 in
    let doe = z % 146097 in
    let yoe = year_of_era doe in
    march_date (yoe + z / 146097 * 400) (doe - (365 * yoe + yoe / 4 - yoe / 100))

-- `_billing_cycle` of a date: the last anchor day that is not after it
unfoldable pub cycle_start : ℕ → Date → Date
cycle_start anchor today =
    if ltb today.day anchor
    then (if today.month == 1
        then record { year = today.year - 1; month = 12; day = anchor }
        else record { year = today.year; month = today.month - 1; day = anchor })
    else record { year = today.year; month = today.month; day = anchor }

unfoldable pub billing_cycle : ℕ → ℕ → Date
billing_cycle anchor now = cycle_start anchor (civil_date (day_number now))
