-- ===== src/Dates.antt =====
-- JavaScript dates in UTC, as milliseconds since 1970: the year and the month of a date, and
-- `financialYearLabel` of packages/shared/src/finance.ts. A label `2026-27` is kept as its first
-- year.
use openestate.Base.{ℕ, ◌+◌, ◌-◌, ◌*◌, ◌/◌, ◌%◌, ltb, leb, if◌then◌else◌}

abbrev pub day_ms : ℕ
day_ms = 86_400_000

-- Days since 1 March of the year 0, of the proleptic Gregorian calendar.
abbrev shifted_days : ℕ → ℕ
shifted_days date = date / day_ms + 719_468

abbrev day_of_era : ℕ → ℕ
day_of_era date = shifted_days date % 146_097

abbrev year_of_era : ℕ → ℕ
year_of_era date = let d = day_of_era date in (d - d / 1_460 + d / 36_524 - d / 146_096) / 365

abbrev day_of_year : ℕ → ℕ
day_of_year date = let y = year_of_era date in day_of_era date - (365 * y + y / 4 - y / 100)

-- The month counted from March.
abbrev month_from_march : ℕ → ℕ
month_from_march date = (5 * day_of_year date + 2) / 153

-- `getUTCMonth() + 1`
unfoldable pub utc_month : ℕ → ℕ
utc_month date = let m = month_from_march date in if ltb m 10 then m + 3 else m - 9

-- `getUTCFullYear()`
unfoldable pub utc_full_year : ℕ → ℕ
unfolding utc_month
utc_full_year date =
    year_of_era date + shifted_days date / 146_097 * 400 + (if leb (utc_month date) 2 then 1 else 0)

unfoldable pub financial_year_label : ℕ → ℕ → ℕ
unfolding utc_full_year
financial_year_label date fy_start_month =
    let y = utc_full_year date in if leb fy_start_month (utc_month date) then y else y - 1
