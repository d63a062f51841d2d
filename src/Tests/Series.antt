-- ===== src/Tests/Series.antt =====
-- Candles, live prices and older candles of price-chart.tsx, at concrete inputs.
use stock_anomoly_detection.Prelude.{ℕ, ◌<◌, ◌≡◌, ◌≢◌, refl, List, [], ◌∷◌, none, some, arith}
use stock_anomoly_detection.Keyed.Put.{or_else, IsAscending, IsDistinct, find, find_last}
use stock_anomoly_detection.Calendar.Blocks.{last_day}
use stock_anomoly_detection.Chart.{to_ms, OhlcvPoint, minute, day}
use stock_anomoly_detection.Chart.DateKey.{kst_day}
use stock_anomoly_detection.Chart.Series.{flat, final_data}
use stock_anomoly_detection.Chart.Series.Order.{AscendingBars, final_data-AscendingBars}
use stock_anomoly_detection.Chart.Ticks.{set_last, PendingTick, apply_ticks}
use stock_anomoly_detection.Chart.Ticks.Buckets.{IsClock}
use stock_anomoly_detection.Chart.Ticks.Outcome.{IsCandle, IsSeries}
use stock_anomoly_detection.Chart.Ticks.Candles.{IsNow}
use stock_anomoly_detection.Chart.Ticks.Totals.{total, apply_ticks-total}
use stock_anomoly_detection.Chart.Paging.{merge_older}
use stock_anomoly_detection.Chart.Paging.Merge.{time_of, merge_older_lem}

-- two minutes from 2026-01-01 00:30 in Seoul
abbrev pub first_candle : OhlcvPoint
first_candle = flat 1767195000 10

abbrev pub second_candle : OhlcvPoint
second_candle = flat 1767195060 12

abbrev pub two_candles : List OhlcvPoint
two_candles = first_candle ∷ second_candle ∷ []

pub two_candles-IsSeries : IsSeries minute two_candles
two_candles-IsSeries = record {
  ascending = ((ground arith, tt), (tt, tt));
  in_seconds = (ground arith, (ground arith, tt));
  candles = (flat-IsCandle 1767195000 10, (flat-IsCandle 1767195060 12, tt));
}
  where
    flat-IsCandle : (time price : ℕ) → IsCandle (flat time price)
    flat-IsCandle time price = record {
      low-opening = omega arith;
      opening-high = omega arith;
      low-close = omega arith;
      close-high = omega arith;
    }

pub instant-IsNow : IsNow 1767195065000
unfolding to_ms
instant-IsNow = (record { in_ms = ground arith; in_years = ground arith }, ground arith)

final_data-AscendingBars_example :
    AscendingBars (final_data day (second_candle ∷ first_candle ∷ []))
final_data-AscendingBars_example =
    final_data-AscendingBars day (second_candle ∷ first_candle ∷ [])
      (ground arith, (ground arith, tt))

abbrev pub two_ticks : List PendingTick
two_ticks =
    record { price = 9; timestamp = 1767195065000 }
    ∷ record { price = 14; timestamp = 1767195070000 }
    ∷ []

pub later-IsClock : IsClock 1767195070000
unfolding to_ms
later-IsClock = record { in_ms = ground arith; in_years = ground arith }

apply_ticks-total_example :
    (apply_ticks minute two_ticks two_candles).0
    ≡ set_last (total second_candle two_ticks) two_candles
apply_ticks-total_example =
    apply_ticks-total minute two_ticks two_candles second_candle (ground arith) refl
      ((instant-IsNow.0, ground arith), ((later-IsClock, ground arith), tt))

-- fetched: an earlier minute and a new version of the first one
abbrev pub older_candles : List OhlcvPoint
older_candles = flat 1767194940 8 ∷ flat 1767195000 11 ∷ []

pub two_candles-IsDistinct : IsDistinct time_of two_candles
two_candles-IsDistinct = ((ground arith, tt), (tt, tt))

is_there : (p : OhlcvPoint) → some p ≢ none
is_there p = ground arith

merge_older_lem_example :
    IsAscending time_of (merge_older older_candles two_candles)
    × ((t : ℕ)
        → find time_of t (merge_older older_candles two_candles)
          ≡ or_else time_of (find_last time_of t two_candles) (find_last time_of t older_candles))
merge_older_lem_example = merge_older_lem older_candles two_candles

-- 2025-12-31 24:00 in Seoul and a minute before
new_year : kst_day 1767193200 < last_day
unfolding to_ms
new_year = ground arith

old_year : kst_day 1767193140 < last_day
unfolding to_ms
old_year = ground arith
