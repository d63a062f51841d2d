-- ===== src/Chart/Ticks/Buckets.antt =====
-- The keys of ticks and candles, as numbers: the day in Seoul, or the minute.
use stock_anomoly_detection.Prelude.{
  ℕ, ◌/◌, ◌≤◌, ◌<◌, ◌≡◌, refl, ◌&&◌, ltb, ◌==◌, arith, if◌then◌else◌,
}
use stock_anomoly_detection.Text.{text_lt, text_eq_iff}
use stock_anomoly_detection.Calendar.Blocks.{last_day}
use stock_anomoly_detection.Chart.{
  OhlcvPoint, Interval, minute, day, week, month, is_daily, key_eq, key_lt, seconds_bound, to_ms,
  date_string, epoch, get_kst_date_string,
}
use stock_anomoly_detection.Chart.DateKey.{
  kst_day, text_lt-get_kst_date_string, text_eq-get_kst_date_string, get_kst_date_string-cons,
}
use stock_anomoly_detection.Chart.Series.{chart_key}
use stock_anomoly_detection.Chart.Series.Order.{kst_day-lt}
use stock_anomoly_detection.Chart.Ticks.{tick_key, last_time_key, truthy, new_time}

-- the milliseconds after 1970-04-26 and before the year 10000: the clock's range
pub record IsClock (timestamp : ℕ) : Type 0 where
  pub in_ms : seconds_bound ≤ timestamp
  pub in_years : kst_day timestamp < last_day

abbrev pub tick_bucket : Interval → ℕ → ℕ
tick_bucket minute timestamp = timestamp / 60000
tick_bucket day timestamp = kst_day timestamp
tick_bucket week timestamp = kst_day timestamp
tick_bucket month timestamp = kst_day timestamp

-- the bucket of a point's time, in seconds
abbrev pub bucket : Interval → ℕ → ℕ
bucket minute time = time / 60
bucket day time = kst_day time
bucket week time = kst_day time
bucket month time = kst_day time

day_key :
    (timestamp : ℕ) (p : OhlcvPoint)
    → IsClock timestamp
    → p.time < seconds_bound
    → (truthy (date_string (get_kst_date_string p.time))
        && text_lt (get_kst_date_string timestamp) (get_kst_date_string p.time))
      ≡ ltb (kst_day timestamp) (kst_day p.time)
day_key timestamp p c h =
    let below = kst_day-lt p.time h in
    let (_, _, e) = get_kst_date_string-cons p.time below in
    rw (text_lt-get_kst_date_string timestamp p.time c.in_years below, e)

pub key_lt-tick_key :
    (i : Interval) (timestamp : ℕ) (p : OhlcvPoint)
    → IsClock timestamp
    → p.time < seconds_bound
    → (truthy (last_time_key i p) && key_lt (tick_key i timestamp) (last_time_key i p))
      ≡ ltb (tick_bucket i timestamp) (bucket i p.time)
unfolding key_lt tick_key last_time_key
key_lt-tick_key minute timestamp p c h = ground arith
key_lt-tick_key day timestamp p c h = day_key timestamp p c h
key_lt-tick_key week timestamp p c h = day_key timestamp p c h
key_lt-tick_key month timestamp p c h = day_key timestamp p c h

pub key_eq-tick_key :
    (i : Interval) (timestamp : ℕ) (p : OhlcvPoint)
    → IsClock timestamp
    → p.time < seconds_bound
    → key_eq (last_time_key i p) (tick_key i timestamp)
      ≡ (bucket i p.time == tick_bucket i timestamp)
unfolding key_eq tick_key last_time_key
key_eq-tick_key minute timestamp p c h = ground arith
key_eq-tick_key day timestamp p c h =
    text_eq-get_kst_date_string p.time timestamp (kst_day-lt p.time h) c.in_years
key_eq-tick_key week timestamp p c h =
    text_eq-get_kst_date_string p.time timestamp (kst_day-lt p.time h) c.in_years
key_eq-tick_key month timestamp p c h =
    text_eq-get_kst_date_string p.time timestamp (kst_day-lt p.time h) c.in_years

-- a new candle lies in the bucket of its tick
pub bucket-new_time :
    (i : Interval) (timestamp : ℕ)
    → IsClock timestamp
    → timestamp / 1000 < seconds_bound
    → bucket i (new_time i timestamp) ≡ tick_bucket i timestamp
unfolding to_ms
bucket-new_time minute timestamp c h = omega arith
bucket-new_time day timestamp c h = ground (arith, c.in_ms)
bucket-new_time week timestamp c h = ground (arith, c.in_ms)
bucket-new_time month timestamp c h = ground (arith, c.in_ms)

seconds_of_clock :
    (timestamp : ℕ)
    → IsClock timestamp
    → timestamp / 1000 < seconds_bound
    → kst_day (timestamp / 1000) ≡ kst_day timestamp
unfolding to_ms
seconds_of_clock timestamp c h = ground (arith, c.in_ms)

same_text :
    (timestamp : ℕ)
    → IsClock timestamp
    → timestamp / 1000 < seconds_bound
    → date_string (get_kst_date_string timestamp)
      ≡ date_string (get_kst_date_string (timestamp / 1000))
same_text timestamp c h =
    let secs = timestamp / 1000 in
    ground (
      arith,
      text_eq_iff (get_kst_date_string timestamp) (get_kst_date_string secs),
      text_eq-get_kst_date_string timestamp secs c.in_years (kst_day-lt secs h),
      seconds_of_clock timestamp c h,
    )

-- the key that a tick is given is the chart's key for a candle that it opens
pub tick_key-new_time :
    (i : Interval) (timestamp : ℕ)
    → IsClock timestamp
    → timestamp / 1000 < seconds_bound
    → tick_key i timestamp ≡ chart_key i (new_time i timestamp)
unfolding tick_key chart_key
tick_key-new_time minute timestamp c h = refl
tick_key-new_time day timestamp c h = same_text timestamp c h
tick_key-new_time week timestamp c h = same_text timestamp c h
tick_key-new_time month timestamp c h = same_text timestamp c h

-- the key that the chart has for the last candle
pub last_time_key-chart_key :
    (i : Interval) (p : OhlcvPoint)
    → (if is_daily i then last_time_key i p else epoch p.time) ≡ chart_key i p.time
unfolding last_time_key chart_key
last_time_key-chart_key minute p = refl
last_time_key-chart_key day p = refl
last_time_key-chart_key week p = refl
last_time_key-chart_key month p = refl
