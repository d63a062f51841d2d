-- ===== src/Chart/Paging/EndDate.antt =====
-- Which candles `loadMore` asks for.
use native.Mathlib.Nat.{le_trans}
use stock_anomoly_detection.Prelude.{
  ℕ, ◌+◌, ◌-◌, ◌/◌, ◌%◌, ◌≤◌, ◌<◌, ◌≡◌, refl, Bool, true, false, List, [], ◌∷◌, ltb, if◌then◌else◌,
  All, All-within, Within, arith, inl, inr,
}
use stock_anomoly_detection.Text.Decimal.{two_digits, pad_start-decimal, decimal_four}
use stock_anomoly_detection.Calendar.{
  civil, ms_per_day, get_utc_full_year, get_utc_month, get_utc_date, set_utc_date,
}
use stock_anomoly_detection.Calendar.Blocks.{last_day, days_in_month-le}
use stock_anomoly_detection.Calendar.Dates.{year-lt, civil-IsDateOf, set_utc_date-get_utc_date}
use stock_anomoly_detection.Chart.{
  OhlcvPoint, Interval, minute, day, week, month, is_daily, to_ms, kst_offset, seconds_bound,
}
use stock_anomoly_detection.Chart.DateKey.{kst_day}
use stock_anomoly_detection.Chart.Series.Order.{IsSeconds, kst_day_mono}
use stock_anomoly_detection.Chart.Paging.{earliest_point, compact_date, end_date}

-- Whatever the order of the array, the point found is no later than any other.
pub earliest_point-least :
    (least : OhlcvPoint) (ds : List OhlcvPoint)
    → All (λ (d : OhlcvPoint). (earliest_point least ds).time ≤ d.time) (least ∷ ds)
unfolding earliest_point
earliest_point-least least [] = (omega arith, tt)
earliest_point-least least (d ∷ ds) =
    let pick = if ltb d.time least.time then d else least in
    let ih = earliest_point-least pick ds in
    let a : pick.time ≤ least.time = ground arith in
    let b : pick.time ≤ d.time = ground arith in (le_trans ih.0 a, (le_trans ih.0 b, ih.1))

pub earliest_point-Within :
    (least : OhlcvPoint) (ds : List OhlcvPoint) → Within (earliest_point least ds) (least ∷ ds)
unfolding earliest_point
earliest_point-Within least [] = inl refl
earliest_point-Within least (d ∷ ds) =
    picked (ltb d.time least.time)
      (earliest_point-Within (if ltb d.time least.time then d else least) ds)
  where
    picked :
        {x : OhlcvPoint} (b : Bool)
        → Within x ((if b then d else least) ∷ ds)
        → Within x (least ∷ d ∷ ds)
    picked true w = inr w
    picked false (inl e) = inl e
    picked false (inr w) = inr (inr w)

-- `s` writes the date of a day number: four digits of the year, two of the month, two of the day.
abbrev pub Writes : ℕ → List ℕ → Type 0
Writes d s =
    s
    ≡ two_digits ((civil d).year / 100) (
        two_digits ((civil d).year % 100)
          (two_digits ((civil d).month + 1) (two_digits (civil d).date [])))

pub compact_date-Writes :
    (ms : ℕ) → ms / ms_per_day < last_day → Writes (ms / ms_per_day) (compact_date ms)
unfolding compact_date get_utc_full_year get_utc_month get_utc_date
compact_date-Writes ms h =
    let v = civil-IsDateOf (ms / ms_per_day) in
    let c = civil (ms / ms_per_day) in
    rw (
      decimal_four c.year (omega (arith, v.from_1970)) (year-lt v h),
      pad_start-decimal (c.month + 1) (omega (arith, v.month_in)),
      pad_start-decimal c.date (omega (arith, v.date_in, days_in_month-le c.year c.month)),
    )

day_before :
    (time : ℕ)
    → ms_per_day ≤ to_ms time + kst_offset
    → kst_day time < last_day
    → Writes (kst_day time - 1) (
        compact_date
          (set_utc_date (to_ms time + kst_offset) (get_utc_date (to_ms time + kst_offset) - 1)))
day_before time h k =
    let ms = to_ms time + kst_offset in
    let e : (ms - ms_per_day) / ms_per_day ≡ kst_day time - 1 = omega arith in
    rw (set_utc_date-get_utc_date ms h)
      (rw e at (compact_date-Writes (ms - ms_per_day) (omega arith)))

kst_day_from :
    (time : ℕ)
    → 86400 ≤ time
    → time < seconds_bound
    → (ms_per_day ≤ to_ms time + kst_offset) × (kst_day time < last_day)
unfolding to_ms
kst_day_from time h k = (ground arith, ground arith)

days_after :
    (e : ℕ) (ds : List OhlcvPoint)
    → 1 ≤ kst_day e
    → All IsSeconds ds
    → All (λ (d : OhlcvPoint). e ≤ d.time) ds
    → All (λ (d : OhlcvPoint). kst_day e - 1 < kst_day d.time) ds
days_after e [] one s h = tt
days_after e (d ∷ ds) one s h =
    let le = kst_day_mono e d.time h.0 s.0 in (omega arith, days_after e ds one s.1 h.1)

-- On every interval but "1m", and for candles from 1970-01-02 on, the end date asked for is the day
-- in Seoul before the earliest candle's, over the ends of months and years; so it is before the
-- day of every candle at hand, in whatever order they stand.
pub end_date-before :
    (i : Interval) (least : OhlcvPoint) (ds : List OhlcvPoint)
    → is_daily i ≡ true
    → All (λ (d : OhlcvPoint). 86400 ≤ d.time) (least ∷ ds)
    → All IsSeconds (least ∷ ds)
    → Writes
        (kst_day (earliest_point least ds).time - 1)
        (end_date i (earliest_point least ds).time)
      × All
          (λ (d : OhlcvPoint). kst_day (earliest_point least ds).time - 1 < kst_day d.time)
          (least ∷ ds)
unfolding end_date
end_date-before i least ds daily h secs =
    (written i daily, days_after e.time (least ∷ ds) one secs (earliest_point-least least ds))
  where
    e : OhlcvPoint
    e = earliest_point least ds

    range : (ms_per_day ≤ to_ms e.time + kst_offset) × (kst_day e.time < last_day)
    range =
        kst_day_from e.time
          (All-within (λ (d : OhlcvPoint). 86400 ≤ d.time) e (least ∷ ds) h
            (earliest_point-Within least ds))
          (All-within IsSeconds e (least ∷ ds) secs (earliest_point-Within least ds))

    one : 1 ≤ kst_day e.time
    one = let r = range.0 in omega arith

    written : (j : Interval) → is_daily j ≡ true → Writes (kst_day e.time - 1) (end_date j e.time)
    written minute f = absurd (ground arith)
    written day f = day_before e.time range.0 range.1
    written week f = day_before e.time range.0 range.1
    written month f = day_before e.time range.0 range.1
