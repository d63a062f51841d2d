-- ===== src/Chart/Session/Live/Begin.antt =====
-- A stock's chart from its selection on.
use stock_anomoly_detection.Prelude.{refl, List, [], ◌∷◌, some}
use stock_anomoly_detection.Text.{Text}
use stock_anomoly_detection.Chart.{OhlcvPoint, Interval}
use stock_anomoly_detection.Chart.Ticks.Outcome.{IsSeries}
use stock_anomoly_detection.Chart.Display.{CandlestickSeries}
use stock_anomoly_detection.Chart.Display.First.{mounted, history_shown}
use stock_anomoly_detection.Chart.Session.{
  ok, push, push_all, clean_up, sync_interval, initialize_chart, show_data,
}
use stock_anomoly_detection.Chart.Session.Handlers.{load_history, on_history, fit, apply_all}
use stock_anomoly_detection.Chart.Session.Steps.{
  World, Event, select_stock, chart_ready, history_answered, rebuild, reload, run_history,
  answer_history, step, run,
}
use stock_anomoly_detection.Chart.Session.Live.{AreCurrent, IsLive}
use stock_anomoly_detection.Chart.Session.Live.Steps.{run-IsLive}

-- a chart that was mounted, a stock selected, and its history answered
abbrev pub loaded : Interval → Text → List OhlcvPoint → World
loaded i ticker history =
    run (select_stock (some ticker) ∷ chart_ready ∷ history_answered 0 (ok history) ∷ [])
      (mounted i)

module _ (api : CandlestickSeries) (i : Interval) (start : api.Series) (ticker : Text)
    (history : List OhlcvPoint) where
  loaded-IsLive : IsSeries i history → IsLive api i start (loaded i ticker history)
  unfolding run step reload rebuild run_history answer_history load_history on_history fit apply_all
      push push_all clean_up sync_interval initialize_chart show_data
  loaded-IsLive h = record {
    chart = record {
      at_interval = refl;
      candles_there = refl;
      volumes_there = refl;
      series = h;
      series_ref = record { ascending = tt; in_seconds = tt; candles = tt };
      shows = (history_shown api i ticker history start h).4;
    };
    asked = tt;
  }

  -- From the mounting of a chart, the selection of a stock and the answer of its history in order, through
  -- any order of prices, scrolls, renders and answers, where prices carry a clock's time and each answer
  -- with candles holds a series before its request's, and no other stock or interval is chosen: the state
  -- and its ref hold series in order, and the chart shows exactly the candles of the state.
  pub session-IsLive :
      (es : List Event)
      → IsSeries i history
      → AreCurrent i es (loaded i ticker history)
      → IsLive api i start (run es (loaded i ticker history))
  session-IsLive es h a = run-IsLive api i start es (loaded i ticker history) a (loaded-IsLive h)
