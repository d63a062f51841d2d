-- ===== src/Chart/DateKey.antt =====
-- The order of the date strings that `getKstDateString` makes.
use stock_anomoly_detection.Prelude.{ap, ◌==◌, ℕ, ◌+◌, ◌/◌, ◌%◌, ◌<◌, ◌≡◌, arith, ltb, [], ◌∷◌}
use stock_anomoly_detection.Text.{Text, text_eq, text_eq_iff, text_lt}
use stock_anomoly_detection.Text.Decimal.{two_digits, pad_start-decimal, decimal_four}
use stock_anomoly_detection.Text.Order.{text_lt-two_digits, text_lt-same, text_lt_irrefl}
use stock_anomoly_detection.Calendar.{
  civil, ms_per_day, get_utc_full_year, get_utc_month, get_utc_date, Civil,
}
use stock_anomoly_detection.Calendar.Blocks.{last_day, days_in_month-le}
use stock_anomoly_detection.Calendar.Dates.{year-lt, civil-IsDateOf, civil_lt, civil_lt-civil}
use stock_anomoly_detection.Chart.{get_kst_date_string, to_ms, kst_offset}

-- the day in Seoul, counted from 1970-01-01
abbrev pub kst_day : ℕ → ℕ
kst_day timestamp = (to_ms timestamp + kst_offset) / ms_per_day

date_text : Civil → Text
date_text c =
    two_digits (c.year / 100)
      (two_digits (c.year % 100) (b'-' ∷ two_digits (c.month + 1) (b'-' ∷ two_digits c.date [])))

get_kst_date_string-date_text :
    (t : ℕ) → kst_day t < last_day → get_kst_date_string t ≡ date_text (civil (kst_day t))
unfolding get_kst_date_string date_text get_utc_full_year get_utc_month get_utc_date
get_kst_date_string-date_text t h =
    let v = civil-IsDateOf (kst_day t) in
    let c = civil (kst_day t) in
    rw (
      decimal_four c.year (omega (arith, v.from_1970)) (year-lt v h),
      pad_start-decimal (c.month + 1) (omega (arith, v.month_in)),
      pad_start-decimal c.date (omega (arith, v.date_in, days_in_month-le c.year c.month)),
    )

text_lt-date_text : (a b : Civil) → text_lt (date_text a) (date_text b) ≡ civil_lt a b
unfolding date_text
text_lt-date_text a b = simp (text_lt-two_digits, text_lt-same, text_lt_irrefl) (ground arith)

-- Date strings of timestamps before the year 10000 are ordered, as texts, like the days in Seoul.
pub text_lt-get_kst_date_string :
    (s t : ℕ)
    → kst_day s < last_day
    → kst_day t < last_day
    → text_lt (get_kst_date_string s) (get_kst_date_string t) ≡ ltb (kst_day s) (kst_day t)
text_lt-get_kst_date_string s t hs ht = rw (
  get_kst_date_string-date_text s hs,
  get_kst_date_string-date_text t ht,
  text_lt-date_text,
  civil_lt-civil,
)

-- Two such strings are equal exactly for timestamps of one day in Seoul.
pub text_eq-get_kst_date_string :
    (s t : ℕ)
    → kst_day s < last_day
    → kst_day t < last_day
    → text_eq (get_kst_date_string s) (get_kst_date_string t) ≡ (kst_day s == kst_day t)
text_eq-get_kst_date_string s t hs ht = ground (
  arith,
  get_kst_date_string-date_text s hs,
  get_kst_date_string-date_text t ht,
  text_lt-get_kst_date_string s t hs ht,
  text_lt-get_kst_date_string t s ht hs,
  text_lt_irrefl (get_kst_date_string s),
  ap (λ d. date_text (civil d)),
  text_eq_iff (get_kst_date_string s) (get_kst_date_string t),
)

-- the string has characters, so JavaScript reads it as true
pub get_kst_date_string-cons :
    (t : ℕ) → kst_day t < last_day → (c : ℕ) × (s : Text) × (get_kst_date_string t ≡ c ∷ s)
unfolding date_text
get_kst_date_string-cons t h = (_, _, get_kst_date_string-date_text t h)
