-- ===== src/Chart/Ticks.antt =====
-- `applyTick` of price-chart.tsx: a live price becomes part of the last candle, or a new candle.
pub mod Buckets
pub mod Outcome
pub mod Candles
pub mod Totals
pub mod Splits
use stock_anomoly_detection.Prelude.{
  ℕ, ◌*◌, ◌/◌, ◌≡◌, refl, Bool, true, false, ◌&&◌, List, [], ◌∷◌, ◌++◌, Option, none, some, last,
  min, max, ◌==◌, not, if◌then◌else◌,
}
use stock_anomoly_detection.Text.{codes}
use stock_anomoly_detection.Chart.{
  OhlcvPoint, Interval, minute, day, is_daily, TimeKey, date_string, epoch, key_eq, key_lt,
  get_kst_date_string,
}
use stock_anomoly_detection.Chart.Series.{ChartCall, update_candle, Candle, flat}

-- `timeKey`, from a timestamp in milliseconds
unfoldable pub tick_key : Interval → ℕ → TimeKey
tick_key i timestamp =
    if is_daily i
    then date_string (get_kst_date_string timestamp)
    else epoch (timestamp / 1000 / 60 * 60)

-- `lastTimeKey` of a point that is there
unfoldable pub last_time_key : Interval → OhlcvPoint → TimeKey
last_time_key i p =
    if is_daily i then date_string (get_kst_date_string p.time) else epoch (p.time / 60 * 60)

-- JavaScript's reading of a key as a condition: "" and 0 are false
abbrev pub truthy : TimeKey → Bool
truthy (date_string []) = false
truthy (date_string (c ∷ s)) = true
truthy (epoch n) = not (n == 0)

-- `newHistory[newHistory.length - 1] = p`
unfoldable pub set_last : OhlcvPoint → List OhlcvPoint → List OhlcvPoint
set_last p [] = []
set_last p (x ∷ []) = p ∷ []
set_last p (x ∷ y ∷ xs) = x ∷ set_last p (y ∷ xs)

unfoldable pub merge_tick : ℕ → OhlcvPoint → OhlcvPoint
merge_tick price p = record p { high = max p.high price; low = min p.low price; close = price }

-- the time of a new candle: seconds, in whole minutes for "1m"
abbrev pub new_time : Interval → ℕ → ℕ
new_time i timestamp = if is_daily i then timestamp / 1000 else timestamp / 1000 / 60 * 60

unfoldable pub new_candle : Interval → ℕ → ℕ → OhlcvPoint
new_candle i price timestamp = flat (new_time i timestamp) price

abbrev pub candle_at : TimeKey → OhlcvPoint → Candle
candle_at key p = record {
  time = key;
  opening = p.opening;
  high = p.high;
  low = p.low;
  close = p.close;
}

-- what the updater does once the last point is known
unfoldable pub tick_after :
    Interval → ℕ → ℕ → List OhlcvPoint → OhlcvPoint → List OhlcvPoint × List ChartCall
tick_after i price timestamp prev p =
    let time_key = tick_key i timestamp in
    let last_key = last_time_key i p in
    if truthy last_key && key_lt time_key last_key
    then (prev, [])
    else if key_eq last_key time_key
    then (
      set_last (merge_tick price p) prev,
      update_candle (candle_at (if is_daily i then last_key else epoch p.time) (merge_tick price p))
          ∷ [],
    )
    else (
      prev ++ new_candle i price timestamp ∷ [],
      update_candle (candle_at time_key (new_candle i price timestamp)) ∷ [],
    )

-- The updater that `applyTick` hands to `setOhlcvData`, with the update of the candle series.
unfoldable pub tick_update : Interval → ℕ → ℕ → List OhlcvPoint → List OhlcvPoint × List ChartCall
tick_update i price timestamp prev = elim (last prev) [
  | none ↦ (
    prev ++ new_candle i price timestamp ∷ [],
    update_candle (candle_at (tick_key i timestamp) (new_candle i price timestamp)) ∷ [],
  )
  | some p ↦ tick_after i price timestamp prev p
]

pub record PendingTick : Type 0 where
  pub price : ℕ
  pub timestamp : ℕ

-- `ticks.forEach(tick => applyTick(tick.price, tick.timestamp))`, once the guard of `applyTick`
-- has passed: React applies the updaters in order.
unfoldable pub apply_ticks :
    Interval → List PendingTick → List OhlcvPoint → List OhlcvPoint × List ChartCall
apply_ticks i [] prev = (prev, [])
apply_ticks i (t ∷ ts) prev =
    let now = tick_update i t.price t.timestamp prev in
    let later = apply_ticks i ts now.0 in (later.0, now.1 ++ later.1)

-- two ticks of one minute, then one of the next
minute_ticks :
    (tick_update minute 12 1767195059000
      (tick_update minute 9 1767195030000 (flat 1767195000 10 ∷ [])).0).0
    ≡ record { time = 1767195000; opening = 10; high = 12; low = 9; close = 12; volume = 0 } ∷ []
unfolding tick_update tick_after tick_key last_time_key merge_tick new_candle set_last key_eq key_lt
minute_ticks = refl
