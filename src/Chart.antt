-- ===== src/Chart.antt =====
-- The data of web-app/components/dashboard/price-chart.tsx: candles, intervals, time keys, and the
-- date helper. Prices and volumes are natural numbers in the smallest quoted unit: the chart
-- only compares and copies them.
pub mod DateKey
pub mod Series
pub mod Ticks
pub mod Paging
pub mod Display
pub mod Session
use stock_anomoly_detection.Prelude.{
  ℕ, ◌+◌, ◌*◌, ◌-◌, ◌/◌, ◌≡◌, refl, Bool, true, false, ◌||◌, List, [], ◌∷◌, ◌++◌, Option, none,
  some, ltb, ◌==◌, if◌then◌else◌, arith, ◌↔◌,
}
use stock_anomoly_detection.Text.{Text, codes, text_eq, text_lt, decimal, pad_start, text_eq_iff}
use stock_anomoly_detection.Calendar.{get_utc_full_year, get_utc_month, get_utc_date}

pub record OhlcvPoint : Type 0 where
  pub time : ℕ
  pub opening : ℕ
  pub high : ℕ
  pub low : ℕ
  pub close : ℕ
  pub volume : ℕ

-- "1m", "1d", "1w" and "1M"
pub data Interval : Type 0 where
  minute day week month : Interval

-- `interval === "1d" || interval === "1w" || interval === "1M"`
abbrev pub is_daily : Interval → Bool
is_daily minute = false
is_daily day = true
is_daily week = true
is_daily month = true

-- A timestamp is in seconds if it is below this, else in milliseconds.
abbrev pub seconds_bound : ℕ
seconds_bound = 10000000000

abbrev pub kst_offset : ℕ
kst_offset = 9 * 60 * 60 * 1000

unfoldable pub to_ms : ℕ → ℕ
to_ms timestamp = if ltb timestamp seconds_bound then timestamp * 1000 else timestamp

-- `getKstDateString`
unfoldable pub get_kst_date_string : ℕ → Text
unfolding to_ms get_utc_full_year get_utc_month get_utc_date decimal pad_start
get_kst_date_string timestamp =
    let date = to_ms timestamp + kst_offset in
    decimal (get_utc_full_year date)
    ++ (b'-'
        ∷ (pad_start 2 b'0' (decimal (get_utc_month date + 1))
            ++ (b'-' ∷ pad_start 2 b'0' (decimal (get_utc_date date)))))

-- What the chart is given as a bar's time: a date string, or seconds.
pub data TimeKey : Type 0 where
  date_string : Text → TimeKey
  epoch : ℕ → TimeKey

-- `a === b`
unfoldable pub key_eq : TimeKey → TimeKey → Bool
unfolding text_eq
key_eq (date_string a) (date_string b) = text_eq a b
key_eq (epoch a) (epoch b) = a == b
key_eq (date_string a) (epoch b) = false
key_eq (epoch a) (date_string b) = false

-- `a < b`; the program never compares a string with a number
unfoldable pub key_lt : TimeKey → TimeKey → Bool
unfolding text_lt
key_lt (date_string a) (date_string b) = text_lt a b
key_lt (epoch a) (epoch b) = ltb a b
key_lt (date_string a) (epoch b) = false
key_lt (epoch a) (date_string b) = false

-- 2026-01-01 00:30 in Seoul is still 2025-12-31 in UTC
kst_new_year : get_kst_date_string 1767195000 ≡ codes "2026-01-01"
unfolding get_kst_date_string
kst_new_year = refl

pub key_eq_iff : (a b : TimeKey) → (key_eq a b ≡ true) ↔ (a ≡ b)
unfolding key_eq
key_eq_iff (date_string a) (date_string b) =
    (λ e. ground (arith, text_eq_iff a b), λ e. ground (arith, text_eq_iff a b))
key_eq_iff (epoch a) (epoch b) = (λ e. ground arith, λ e. ground arith)
key_eq_iff (date_string a) (epoch b) = (λ e. cc, λ e. cc)
key_eq_iff (epoch a) (date_string b) = (λ e. cc, λ e. cc)
