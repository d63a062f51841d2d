-- ===== src/Calendar.antt =====
-- The standard `Date` in UTC, as web-app/components/dashboard/price-chart.tsx uses it: a date is
-- its milliseconds since 1970-01-01. Years, months and days follow ECMAScript's definitions of
-- DayFromYear, YearFromTime, MonthFromTime, DateFromTime and MakeDay; earlier dates do not occur.
pub mod Blocks
pub mod Dates
use stock_anomoly_detection.Prelude.{
  ℕ, zero, suc, ◌+◌, ◌-◌, ◌*◌, ◌/◌, ◌%◌, ◌≡◌, refl, Bool, true, false, not, ◌&&◌, ◌||◌, ltb, ◌==◌,
  if◌then◌else◌,
}

abbrev pub ms_per_day : ℕ
ms_per_day = 86400000

pub is_leap : ℕ → Bool
is_leap y = (y % 4 == 0 && not (y % 100 == 0)) || y % 400 == 0

pub days_in_year : ℕ → ℕ
days_in_year y = if is_leap y then 366 else 365

-- months are counted from 0
pub days_in_month : ℕ → ℕ → ℕ
days_in_month y m =
    if m == 1
    then (if is_leap y then 29 else 28)
    else if (m == 3) || (m == 5) || (m == 8) || (m == 10)
    then 30
    else 31

-- the number of the first day of a year, from 1970 on
pub day_from_year : ℕ → ℕ
day_from_year y = 365 * (y - 1970) + (y - 1969) / 4 - (y - 1901) / 100 + (y - 1601) / 400

abbrev pub days_before_month : ℕ → ℕ → ℕ
days_before_month y zero = 0
days_before_month y (suc m) = days_before_month y m + days_in_month y m

pub record Civil : Type 0 where
  pub year : ℕ
  pub month : ℕ
  pub date : ℕ

-- the month that day `d` of the rest of the year lies in, with `left` months to try
find_month : ℕ → ℕ → ℕ → ℕ → Civil
find_month zero y m d = record { year = y; month = m; date = d + 1 }
find_month (suc left) y m d =
    let later = find_month left y (m + 1) (d - days_in_month y m) in
    if ltb d (days_in_month y m) then record { year = y; month = m; date = d + 1 } else later

-- the year that day `d` from the start of year `y` lies in
find_year : ℕ → ℕ → ℕ → Civil
find_year zero y d = find_month 11 y 0 d
find_year (suc fuel) y d =
    let later = find_year fuel (y + 1) (d - days_in_year y) in
    if ltb d (days_in_year y) then find_month 11 y 0 d else later

-- Each round drops 365 days at least, so `d` rounds are enough.
unfoldable pub civil : ℕ → Civil
unfolding find_year find_month days_in_month days_in_year is_leap
civil d = find_year d 1970 d

-- MakeDay, for a month from 0 to 11; the date may be 0, the last day of the month before
unfoldable pub make_day : ℕ → ℕ → ℕ → ℕ
unfolding day_from_year days_in_month is_leap
make_day y m dt = day_from_year y + days_before_month y m + dt - 1

abbrev pub day_of : ℕ → ℕ
day_of ms = ms / ms_per_day

unfoldable pub get_utc_full_year : ℕ → ℕ
unfolding civil
get_utc_full_year ms = (civil (day_of ms)).year

unfoldable pub get_utc_month : ℕ → ℕ
unfolding civil
get_utc_month ms = (civil (day_of ms)).month

unfoldable pub get_utc_date : ℕ → ℕ
unfolding civil
get_utc_date ms = (civil (day_of ms)).date

unfoldable pub get_utc_hours : ℕ → ℕ
get_utc_hours ms = ms / 3600000 % 24

unfoldable pub get_utc_minutes : ℕ → ℕ
get_utc_minutes ms = ms / 60000 % 60

unfoldable pub get_utc_seconds : ℕ → ℕ
get_utc_seconds ms = ms / 1000 % 60

-- `date.setUTCDate(dt)`: the time of day stays
unfoldable pub set_utc_date : ℕ → ℕ → ℕ
unfolding get_utc_full_year get_utc_month make_day
set_utc_date ms dt =
    make_day (get_utc_full_year ms) (get_utc_month ms) dt * ms_per_day + ms % ms_per_day

leap_day : civil 19782 ≡ record { year = 2024; month = 1; date = 29 }
unfolding civil
leap_day = refl

make_day-leap_day : make_day 2024 1 29 ≡ 19782
unfolding make_day
make_day-leap_day = refl
