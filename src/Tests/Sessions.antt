-- ===== src/Tests/Sessions.antt =====
-- A chart from its selection through prices and older candles, at concrete inputs.
use stock_anomoly_detection.Prelude.{
  ℕ, true, ◌<◌, ◌≡◌, ◌≢◌, ◌+◌, ◌≤◌, refl, ◌↔◌, length, List, [], ◌∷◌, ◌++◌, some, arith,
}
use stock_anomoly_detection.Text.{codes, decimal, pad_start}
use stock_anomoly_detection.Chart.{OhlcvPoint, minute}
use stock_anomoly_detection.Chart.Series.{flat}
use stock_anomoly_detection.Chart.Ticks.Outcome.{IsCandle}
use stock_anomoly_detection.Chart.Paging.{
  merge_older, earliest_point, end_date, compact_date, compact_time,
}
use stock_anomoly_detection.Calendar.{
  get_utc_full_year, get_utc_month, get_utc_date, get_utc_hours, get_utc_minutes, get_utc_seconds,
}
use stock_anomoly_detection.Chart.Paging.Prepend.{IsPage, merge_older-append}
use stock_anomoly_detection.Chart.Session.{
  PriceChart, initial, MoreRequest, not_ok, ok, load_more, start_loading,
}
use stock_anomoly_detection.Chart.Session.Steps.{
  World, select_stock, history_answered, more_answered, run,
}
use stock_anomoly_detection.Chart.Session.Asked.{load_more-IsPage}
use stock_anomoly_detection.Chart.Paging.Minutes.{WritesTime, WritesTime-unique, IsUpToTime}
use stock_anomoly_detection.Chart.Session.Failed.{failed_history_stale}
use stock_anomoly_detection.Chart.Session.Switch.{world}
use stock_anomoly_detection.Views.Chart.{status, streaming}
use stock_anomoly_detection.Chart.Paging.Growth.{NewIn, length-merge_older}
use stock_anomoly_detection.Chart.Session.Overwritten.{prices_overwritten}
use stock_anomoly_detection.Chart.Session.Races.{price_events}
use stock_anomoly_detection.Tests.Series.{
  first_candle, second_candle, two_candles-IsDistinct, two_candles, two_candles-IsSeries, two_ticks,
}

abbrev pub page : List OhlcvPoint
page = flat 1767194880 7 ∷ flat 1767194940 8 ∷ []

flat-IsCandle : (time price : ℕ) → IsCandle (flat time price)
flat-IsCandle time price = record {
  low-opening = omega arith;
  opening-high = omega arith;
  low-close = omega arith;
  close-high = omega arith;
}

pub page-IsPage : IsPage minute two_candles page
page-IsPage = record {
  series = record {
    ascending = ((ground arith, tt), (tt, tt));
    in_seconds = (ground arith, (ground arith, tt));
    candles = (flat-IsCandle 1767194880 7, (flat-IsCandle 1767194940 8, tt));
  };
  before = ((ground arith, (ground arith, tt)), ((ground arith, (ground arith, tt)), tt));
}

abbrev request : MoreRequest
request = record {
  ticker = codes "005930";
  interval = minute;
  end_date = codes "20260101002900";
  current_data = two_candles;
}

abbrev asking : World
asking = record {
  chart = record initial {
    chart_api = true;
    candle_series = true;
    volume_series = true;
    is_history_loaded = true;
    is_fetching_ref = true;
    interval = minute;
    interval_ref = minute;
    ohlcv_data = two_candles;
    ohlcv_data_ref = two_candles;
  };
  selected = some (codes "005930");
  more = request ∷ [];
  histories = [];
}

page_is_new : length two_candles < length (merge_older page two_candles)
page_is_new =
    rw ((merge_older-append minute page two_candles page-IsPage two_candles-IsSeries).0)
      (ground arith)

page_ne_nil : (p : OhlcvPoint) (l : List OhlcvPoint) → (p ∷ l) ≢ []
page_ne_nil p l = ground arith

prices_overwritten_example :
    (run (price_events two_ticks ++ more_answered (ok page) ∷ []) asking).chart.ohlcv_data
    ≡ merge_older page two_candles
prices_overwritten_example =
    prices_overwritten two_ticks request [] page asking refl page_is_new
      (page_ne_nil (flat 1767194880 7) (flat 1767194940 8 ∷ []))

-- the clock one minute before the first candle
minute_written : WritesTime 1767227340 (end_date minute 1767195000)
unfolding end_date compact_date compact_time get_utc_full_year get_utc_month get_utc_date
    get_utc_hours get_utc_minutes get_utc_seconds decimal pad_start
minute_written = refl

up_to_minute :
    (p : OhlcvPoint) → p.time + 32400 ≤ 1767227340 → IsUpToTime (end_date minute 1767195000) p
up_to_minute p h n w =
    let e = WritesTime-unique n 1767227340 (end_date minute 1767195000) w minute_written in
    omega arith

abbrev idle : PriceChart
idle = record initial { ohlcv_data_ref = two_candles; is_history_loaded_ref = true }

load_more-IsPage_example : IsPage minute two_candles page
unfolding load_more start_loading earliest_point
load_more-IsPage_example =
    load_more-IsPage (codes "005930") minute idle
      (record {
        ticker = codes "005930";
        interval = minute;
        end_date = end_date minute 1767195000;
        current_data = two_candles;
      })
      page refl (ground arith, (ground arith, tt)) (ground arith, (ground arith, tt))
      page-IsPage.series
      (
        up_to_minute (flat 1767194880 7) (ground arith),
        (up_to_minute (flat 1767194940 8) (ground arith), tt),
      )

length-merge_older_example :
    (length two_candles < length (merge_older page two_candles)) ↔ NewIn page two_candles
length-merge_older_example = length-merge_older page two_candles two_candles-IsDistinct

abbrev shown_chart : PriceChart
shown_chart = record initial {
  is_chart_ready = true;
  chart_api = true;
  candle_series = true;
  volume_series = true;
  is_history_loaded = true;
  ohlcv_data = two_candles;
  ohlcv_data_ref = two_candles;
}

failed_history_stale_example :
    (let w = run (price_events two_ticks) (
        run
          (select_stock (some (codes "000660")) ∷ history_answered 0 not_ok ∷ [])
          (world shown_chart (codes "005930") [])) in
      (w.chart.ohlcv_data ≡ two_candles) × (status w.chart ≡ streaming))
failed_history_stale_example =
    failed_history_stale not_ok shown_chart (codes "005930") (codes "000660") two_ticks tt refl refl
      refl (page_ne_nil first_candle (second_candle ∷ []))
