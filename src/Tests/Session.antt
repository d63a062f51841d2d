-- ===== src/Tests/Session.antt =====
-- The chart component's events, at concrete inputs.
use stock_anomoly_detection.Prelude.{
  map, ◌<◌, ◌≤◌, ◌≡◌, ◌≢◌, refl, true, List, [], ◌∷◌, ◌++◌, none, some, length, arith,
}
use stock_anomoly_detection.Prelude.Int.{pos}
use stock_anomoly_detection.Text.{codes}
use stock_anomoly_detection.Keyed.{sort_by, map_set_all}
use stock_anomoly_detection.Chart.{OhlcvPoint, minute, day, week}
use stock_anomoly_detection.Chart.Series.{flat}
use stock_anomoly_detection.Chart.Display.{candle_of}
use stock_anomoly_detection.Chart.Session.Live.{displayed}
use stock_anomoly_detection.Tests.Displays.{list_series}
use stock_anomoly_detection.Tests.Series.{two_candles, two_candles-IsSeries}
use stock_anomoly_detection.Chart.Ticks.{PendingTick}
use stock_anomoly_detection.Chart.Paging.{merge_older}
use stock_anomoly_detection.Chart.Session.{PriceChart, initial, MoreRequest, ok}
use stock_anomoly_detection.Chart.Session.Steps.{
  World, Event, select_stock, set_interval, chart_ready, data_synced, loaded_synced, scrolled,
  more_answered, history_answered, priced, run,
}
use stock_anomoly_detection.Chart.Session.Calls.{IsUsable}
use stock_anomoly_detection.Chart.Session.Usable.{run-IsUsable}
use stock_anomoly_detection.Chart.Session.Fetching.{IsCounted, run-IsCounted}
use stock_anomoly_detection.Chart.Session.Switch.{world}
use stock_anomoly_detection.Chart.Session.Late.{waiting_world, late_history_replaces}
use stock_anomoly_detection.Chart.Session.Handlers.{HistoryRequest}
use stock_anomoly_detection.Chart.Session.Races.{
  price_events, late_candles_replace, buffered_prices_lost,
}

abbrev start : World
start = record { chart = initial; selected = none; more = []; histories = [] }

abbrev pub candles : List OhlcvPoint
candles = flat 1767195000 10 ∷ flat 1767281400 12 ∷ []

-- a stock is selected, its history loads, the user scrolls back and changes the interval
abbrev visit : List Event
visit =
    select_stock (some (codes "005930"))
    ∷ chart_ready
    ∷ history_answered 0 (ok candles)
    ∷ data_synced
    ∷ loaded_synced
    ∷ scrolled (some (record { from = pos 10000; to = pos 60000 }))
    ∷ priced (some 11) 1767281460000
    ∷ set_interval week
    ∷ more_answered (ok (flat 1767108600 9 ∷ []))
    ∷ []

initial-IsUsable : IsUsable initial
initial-IsUsable = record { api = refl; candles = refl; volumes = refl; safe = tt }

run-IsUsable_example : IsUsable (run visit start).chart
run-IsUsable_example = run-IsUsable visit start initial-IsUsable

run-IsCounted_example : IsCounted (run visit start) × (length (run visit start).more ≤ 1)
run-IsCounted_example = run-IsCounted visit start refl

-- a chart of daily candles, with older ones on their way
abbrev pub ready_chart : PriceChart
ready_chart = record initial {
  is_chart_ready = true;
  chart_api = true;
  candle_series = true;
  volume_series = true;
  is_fetching_ref = true;
}

abbrev request : MoreRequest
request = record {
  ticker = codes "005930";
  interval = day;
  end_date = codes "20251231";
  current_data = candles;
}

older_ne_empty : (p : OhlcvPoint) → (p ∷ []) ≢ []
older_ne_empty p = ground arith

three_candles : length (merge_older (flat 1767108600 9 ∷ []) candles) ≡ 3
unfolding merge_older sort_by map_set_all
three_candles = refl

older_grow : length candles < length (merge_older (flat 1767108600 9 ∷ []) candles)
older_grow = rw three_candles (ground arith)

late_candles_replace_example :
    (let w =
        run
          (set_interval minute
            ∷ history_answered 0 (ok (flat 1767300000 13 ∷ []))
            ∷ more_answered (ok (flat 1767108600 9 ∷ []))
            ∷ [])
          (world ready_chart (codes "005930") (request ∷ [])) in
      (w.chart.ohlcv_data ≡ merge_older (flat 1767108600 9 ∷ []) candles)
      × (w.chart.interval ≡ minute))
late_candles_replace_example =
    late_candles_replace ready_chart (codes "005930") request minute (flat 1767300000 13 ∷ [])
      (flat 1767108600 9 ∷ []) refl older_grow (older_ne_empty (flat 1767108600 9))

abbrev prices : List PendingTick
prices =
    record { price = 14; timestamp = 1767300005000 }
    ∷ record { price = 15; timestamp = 1767300006000 }
    ∷ []

buffered_prices_lost_example :
    (let w =
        run
          (set_interval minute
            ∷ (price_events prices ++ history_answered 0 (ok (flat 1767300000 13 ∷ [])) ∷ []))
          (world ready_chart (codes "005930") []) in
      (w.chart.ohlcv_data ≡ flat 1767300000 13 ∷ []) × (w.chart.tick_buffer ≡ []))
buffered_prices_lost_example =
    buffered_prices_lost ready_chart (codes "005930") minute prices (flat 1767300000 13 ∷ []) refl
      refl

abbrev former_history : HistoryRequest
former_history = record { ticker = codes "005930"; interval = day }

abbrev minute_chart : PriceChart
minute_chart = record ready_chart { interval = minute }

late_history_replaces_example :
    (let w =
        run
          (select_stock (some (codes "000660"))
            ∷ history_answered 1 (ok (flat 1767300000 13 ∷ []))
            ∷ history_answered 0 (ok two_candles)
            ∷ [])
          (waiting_world minute_chart (codes "005930") former_history) in
      (w.chart.ohlcv_data ≡ two_candles)
      × (list_series.shown (displayed list_series minute [] w.chart.calls)
          ≡ map (candle_of minute) two_candles)
      × (w.selected ≡ some (codes "000660"))
      × (w.histories ≡ []))
late_history_replaces_example =
    late_history_replaces list_series [] minute_chart (codes "005930") (codes "000660")
      former_history (flat 1767300000 13 ∷ []) two_candles refl refl two_candles-IsSeries
