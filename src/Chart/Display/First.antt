-- ===== src/Chart/Display/First.antt =====
-- From the selection of a stock to its candles on the chart.
use mathlib.Core.List.{reverse}
use stock_anomoly_detection.Prelude.{◌≡◌, refl, true, List, [], ◌∷◌, map, none, some}
use stock_anomoly_detection.Text.{Text}
use stock_anomoly_detection.Chart.{OhlcvPoint, Interval}
use stock_anomoly_detection.Chart.Series.{update_chart_data}
use stock_anomoly_detection.Chart.Ticks.Outcome.{IsSeries}
use stock_anomoly_detection.Chart.Session.{
  initial, ok, push, push_all, clean_up, sync_interval, initialize_chart, show_data,
}
use stock_anomoly_detection.Chart.Session.Handlers.{load_history, on_history, fit, apply_all}
use stock_anomoly_detection.Chart.Session.Steps.{
  World, select_stock, chart_ready, history_answered, rebuild, reload, run_history, answer_history,
  step, run,
}
use stock_anomoly_detection.Chart.Display.{CandlestickSeries, candle_of, perform, perform_all}
use stock_anomoly_detection.Chart.Display.Mirror.{update_chart_data-Mirrors}

-- a chart that has just been mounted, on a chosen interval
abbrev pub mounted : Interval → World
mounted i = record {
  chart = record initial { interval = i };
  selected = none;
  more = [];
  histories = [];
}

-- On a freshly mounted chart of any interval, once a stock is selected, the chart made, and the history
-- answered with a series in order, the series is that history, it counts as loaded, nothing is on its
-- way, and the chart shows the candles of the history.
pub history_shown :
    (api : CandlestickSeries) (i : Interval) (ticker : Text) (history : List OhlcvPoint)
    (s : api.Series)
    → IsSeries i history
    → (let w =
          run
            (select_stock (some ticker) ∷ chart_ready ∷ history_answered 0 (ok history) ∷ [])
            (mounted i) in
        (w.chart.ohlcv_data ≡ history)
        × (w.chart.is_history_loaded ≡ true)
        × (w.histories ≡ [])
        × (w.more ≡ [])
        × (api.shown (perform_all api (reverse w.chart.calls) s) ≡ map (candle_of i) history))
unfolding run step reload rebuild run_history answer_history load_history on_history fit apply_all
    push push_all clean_up sync_interval initialize_chart show_data update_chart_data perform_all
    perform
history_shown api i ticker history s h =
    (refl, refl, refl, refl, update_chart_data-Mirrors api i history (api.set_data [] s) h)
