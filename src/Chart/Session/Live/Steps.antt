-- ===== src/Chart/Session/Live/Steps.antt =====
-- A live chart stays live, step by step.
use stock_anomoly_detection.Prelude.{List, [], ◌∷◌}
use stock_anomoly_detection.Chart.{Interval}
use stock_anomoly_detection.Chart.Display.{CandlestickSeries}
use stock_anomoly_detection.Chart.Session.{
  sync_ohlcv_data, sync_is_history_loaded, on_crosshair_move,
}
use stock_anomoly_detection.Chart.Session.Steps.{
  select_stock_synced, set_interval_synced, World, Event, select_stock, set_interval, chart_ready,
  data_synced, loaded_synced, scrolled, more_answered, history_answered, priced, crosshair_moved,
  step, run,
}
use stock_anomoly_detection.Chart.Session.Live.{IsCurrent, AreCurrent, IsLive}
use stock_anomoly_detection.Chart.Session.Live.Handlers.{
  answer_more-IsLive, on_price-IsShown, scroll-IsLive,
}

module _ (api : CandlestickSeries) (i : Interval) (start : api.Series) where
  pub step-IsLive :
      (e : Event) (w : World)
      → IsCurrent i e w
      → (IsLive api i start) w
      → (IsLive api i start) (step e w)
  unfolding step sync_ohlcv_data sync_is_history_loaded on_crosshair_move
  step-IsLive (select_stock o) w a h = absurd (a tt)
  step-IsLive (set_interval j) w a h = absurd (a tt)
  step-IsLive (select_stock_synced o) w a h = absurd (a tt)
  step-IsLive (set_interval_synced j) w a h = absurd (a tt)
  step-IsLive chart_ready w a h = absurd (a tt)
  step-IsLive data_synced w a h = record {
    chart = record {
      at_interval = h.chart.at_interval;
      candles_there = h.chart.candles_there;
      volumes_there = h.chart.volumes_there;
      series = h.chart.series;
      series_ref = h.chart.series;
      shows = h.chart.shows;
    };
    asked = h.asked;
  }
  step-IsLive loaded_synced w a h = record { chart = h.chart; asked = h.asked }
  step-IsLive (scrolled range) w a h = scroll-IsLive api i start w.selected range w h
  step-IsLive (more_answered r) w a h = answer_more-IsLive api i start r w.more w h.asked a h
  step-IsLive (history_answered n r) w a h = absurd (a tt)
  step-IsLive (priced price timestamp) w a h = record {
    chart = on_price-IsShown api i start price timestamp w.chart a h.chart;
    asked = h.asked;
  }
  step-IsLive (crosshair_moved found) w a h = record { chart = h.chart; asked = h.asked }

  -- While one stock and interval stay chosen, in any order of prices, scrolls, renders and answers, where
  -- prices carry a clock's time and each answer with candles holds a series before its request's: the
  -- state and its ref stay series in order, and the chart shows exactly the candles of the state.
  pub run-IsLive :
      (es : List Event) (w : World)
      → AreCurrent i es w
      → (IsLive api i start) w
      → (IsLive api i start) (run es w)
  unfolding run AreCurrent
  run-IsLive [] w a h = h
  run-IsLive (e ∷ es) w a h = run-IsLive es (step e w) a.1 (step-IsLive e w a.0 h)
