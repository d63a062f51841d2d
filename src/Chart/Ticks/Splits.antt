-- ===== src/Chart/Ticks/Splits.antt =====
-- A price of a later day begins a candle, on every interval but "1m".
use stock_anomoly_detection.Prelude.{
  ◌<◌, ◌/◌, ◌≡◌, refl, ◌∙◌, true, false, ℕ, List, [], ◌∷◌, ◌++◌, some, last, ltb, ◌==◌, arith,
}
use stock_anomoly_detection.Chart.{
  OhlcvPoint, Interval, minute, day, week, month, is_daily, seconds_bound,
}
use stock_anomoly_detection.Chart.DateKey.{kst_day}
use stock_anomoly_detection.Chart.Series.{update_candle, flat}
use stock_anomoly_detection.Chart.Ticks.{tick_key, candle_at, new_time, new_candle, tick_update}
use stock_anomoly_detection.Chart.Ticks.Buckets.{IsClock, tick_bucket, bucket}
use stock_anomoly_detection.Chart.Ticks.Outcome.{tick_after-bucket, tick_update-last}

later_bucket :
    (i : Interval) (timestamp time : ℕ)
    → is_daily i ≡ true
    → kst_day time < kst_day timestamp
    → bucket i time < tick_bucket i timestamp
later_bucket minute timestamp time d lt = absurd (ground arith)
later_bucket day timestamp time d lt = lt
later_bucket week timestamp time d lt = lt
later_bucket month timestamp time d lt = lt

-- On "1d", "1w" and "1M" alike, a price on a later day in Seoul than that of the list's last candle is
-- appended as a candle of its own, opened at that price and of no volume: also when that day lies in the
-- week or month of the last candle, and when another candle of the list, which was not fetched in
-- order, is of that very day.
pub later_day_appends :
    (i : Interval) (price timestamp : ℕ) (prev : List OhlcvPoint) (p : OhlcvPoint)
    → is_daily i ≡ true
    → IsClock timestamp
    → last prev ≡ some p
    → p.time < seconds_bound
    → kst_day p.time < kst_day timestamp
    → tick_update i price timestamp prev ≡ (
      prev ++ flat (timestamp / 1000) price ∷ [],
      update_candle (candle_at (tick_key i timestamp) (flat (timestamp / 1000) price)) ∷ [],
    )
unfolding new_candle
later_day_appends i price timestamp prev p daily c e h lt =
    let later = later_bucket i timestamp p.time daily lt in
    let not_old : ltb (tick_bucket i timestamp) (bucket i p.time) ≡ false = ground arith in
    let not_same : (bucket i p.time == tick_bucket i timestamp) ≡ false = ground arith in
    let time : new_time i timestamp ≡ timestamp / 1000 = rw daily refl in
    tick_update-last i price timestamp prev e
    ∙ tick_after-bucket i price timestamp prev p c h
    ∙ rw (not_old, not_same, time) refl
