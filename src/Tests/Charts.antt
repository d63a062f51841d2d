-- ===== src/Tests/Charts.antt =====
-- Pages of candles and what the chart shows, at concrete inputs.
use mathlib.Core.List.{reverse}
use stock_anomoly_detection.Prelude.{
  ◌/◌, ◌≡◌, ◌≢◌, refl, true, List, [], ◌∷◌, map, none, some, length, arith,
}
use stock_anomoly_detection.Text.{codes}
use stock_anomoly_detection.Keyed.Put.{find}
use stock_anomoly_detection.Keyed.Count.{Covers}
use stock_anomoly_detection.Prelude.Int.{pos, ◌+ℤ◌, ◌-ℤ◌}
use stock_anomoly_detection.Chart.{to_ms, OhlcvPoint, minute, week}
use stock_anomoly_detection.Chart.Series.{flat, update_candle}
use stock_anomoly_detection.Chart.Ticks.{candle_at, tick_key, tick_update}
use stock_anomoly_detection.Chart.Ticks.Splits.{later_day_appends}
use stock_anomoly_detection.Chart.Paging.Merge.{time_of}
use stock_anomoly_detection.Chart.Display.{candle_of, perform_all}
use stock_anomoly_detection.Chart.Display.First.{mounted, history_shown}
use stock_anomoly_detection.Chart.Session.{initial, MoreRequest, ok}
use stock_anomoly_detection.Chart.Session.Handlers.{LogicalRange, near_start}
use stock_anomoly_detection.Chart.Session.Steps.{
  World, select_stock, chart_ready, history_answered, scrolled, step, run,
}
use stock_anomoly_detection.Chart.Session.ScrollBack.{scroll_rounds}
use stock_anomoly_detection.Chart.Session.ScrollBack.End.{scroll_rounds-end}
use stock_anomoly_detection.Tests.Displays.{list_series}
use stock_anomoly_detection.Tests.Series.{
  first_candle, second_candle, two_candles, two_candles-IsSeries, two_candles-IsDistinct,
  instant-IsNow,
}

abbrev swapped : List OhlcvPoint
swapped = second_candle ∷ first_candle ∷ []

later_day_appends_example : tick_update week 9 1767195065000 (flat 1767000000 10 ∷ []) ≡ (
  flat 1767000000 10 ∷ flat (1767195065000 / 1000) 9 ∷ [],
  update_candle (candle_at (tick_key week 1767195065000) (flat (1767195065000 / 1000) 9)) ∷ [],
)
unfolding to_ms
later_day_appends_example =
    later_day_appends week 9 1767195065000 (flat 1767000000 10 ∷ []) (flat 1767000000 10) refl
      instant-IsNow.0 refl (ground arith) (ground arith)

history_shown_example :
    (let w =
        run
          (select_stock (some (codes "005930"))
            ∷ chart_ready
            ∷ history_answered 0 (ok two_candles)
            ∷ [])
          (mounted minute) in
      (w.chart.ohlcv_data ≡ two_candles)
      × (w.chart.is_history_loaded ≡ true)
      × (w.histories ≡ [])
      × (w.more ≡ [])
      × (list_series.shown (perform_all list_series (reverse w.chart.calls) [])
          ≡ map (candle_of minute) two_candles))
history_shown_example =
    history_shown list_series minute (codes "005930") two_candles [] two_candles-IsSeries

-- a server that knows five minutes, and answers with the two before the first candle
abbrev known_candles : List OhlcvPoint
known_candles = flat 1767194880 7 ∷ flat 1767194940 8 ∷ first_candle ∷ second_candle ∷ []

abbrev server : MoreRequest → List OhlcvPoint
server request = flat 1767194880 7 ∷ flat 1767194940 8 ∷ []

abbrev pub start_of_chart : LogicalRange
start_of_chart = record { from = pos 0; to = pos 60000 }

abbrev scrolling : World
scrolling = record {
  chart = record initial {
    chart_api = true;
    candle_series = true;
    volume_series = true;
    is_chart_ready = true;
    is_history_loaded = true;
    is_history_loaded_ref = true;
    ohlcv_data = two_candles;
    ohlcv_data_ref = two_candles;
  };
  selected = some (codes "005930");
  more = [];
  histories = [];
}

known : (p : OhlcvPoint) → some p ≢ none
known p = ground arith

server-Covers : (q : MoreRequest) → Covers time_of known_candles (server q)
unfolding find
server-Covers q = (known (flat 1767194880 7), (known (flat 1767194940 8), tt))

two_candles-Covers : Covers time_of known_candles two_candles
unfolding find
two_candles-Covers = (known first_candle, (known second_candle, tt))

is_near : near_start start_of_chart ≡ true
unfolding near_start ◌+ℤ◌ ◌-ℤ◌
is_near = refl

not_nil : (p : OhlcvPoint) (l : List OhlcvPoint) → (p ∷ l) ≢ []
not_nil p l = ground arith

scroll_rounds-end_example :
    ((scroll_rounds server start_of_chart (length known_candles) scrolling).chart.no_more_data_ref
      ≡ true)
    × ((step
          (scrolled (some start_of_chart))
          (scroll_rounds server start_of_chart (length known_candles) scrolling)).more
        ≡ [])
scroll_rounds-end_example =
    scroll_rounds-end server start_of_chart is_near known_candles (codes "005930") server-Covers
      scrolling start_of_chart
      (record {
        selected = refl;
        idle = refl;
        not_fetching = refl;
        loaded = refl;
        has_data = not_nil first_candle (second_candle ∷ []);
        distinct = two_candles-IsDistinct;
        from_known = two_candles-Covers;
        synced = refl;
      })
