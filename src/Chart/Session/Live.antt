-- ===== src/Chart/Session/Live.antt =====
-- The chart of one selection while it lives: prices, scrolling, renders, and pages of older candles,
-- in any order, until another stock or interval is chosen.
pub mod Handlers
pub mod Steps
pub mod Begin
use mathlib.Core.List.{reverse, reverse-cons, append_assoc, append-nil}
use stock_anomoly_detection.Prelude.{
  ℕ, ◌≤◌, ◌<◌, ◌≡◌, refl, sym, ap, ◌∙◌, Bool, true, false, not, ◌&&◌, ◌||◌, List, [], ◌∷◌, ◌++◌,
  Option, none, some, length, ltb, ◌==◌, if◌then◌else◌, if_cases, All, All-append, arith,
  Bool-cases, inl, inr,
}
use stock_anomoly_detection.Text.{Text}
use stock_anomoly_detection.Chart.{OhlcvPoint, Interval}
use stock_anomoly_detection.Chart.Series.{ChartCall, update_chart_data}
use stock_anomoly_detection.Chart.Ticks.{PendingTick, tick_update, apply_ticks}
use stock_anomoly_detection.Chart.Ticks.Outcome.{IsSeries}
use stock_anomoly_detection.Chart.Ticks.Candles.{IsNow, tick_update-IsSeries}
use stock_anomoly_detection.Chart.Paging.{merge_older}
use stock_anomoly_detection.Chart.Paging.Prepend.{IsPage, merge_older-append}
use stock_anomoly_detection.Chart.Display.{CandlestickSeries, perform_all}
use stock_anomoly_detection.Chart.Display.Mirror.{
  Mirrors, update_chart_data-Mirrors, ticks-Mirrors, perform_all-append,
}
use stock_anomoly_detection.Chart.Session.{
  PriceChart, Legend, push, push_all, show_data, MoreRequest, Response, failed, not_ok, ok,
  load_more, start_loading, sync_ohlcv_data, sync_is_history_loaded, on_crosshair_move,
}
use stock_anomoly_detection.Chart.Session.Handlers.{
  LogicalRange, near_start, on_range, on_visible_range, add_older, on_more, apply_all, on_price,
}
use stock_anomoly_detection.Chart.Session.Steps.{
  select_stock_synced, set_interval_synced, World, Event, select_stock, set_interval, chart_ready,
  data_synced, loaded_synced, scrolled, more_answered, history_answered, priced, crosshair_moved,
  also, scroll, answer_more, step, run,
}

-- What the server keeps to: an answer with candles is a page before those that the request was for.
abbrev pub Keeps : Interval → Response → List MoreRequest → Type 0
Keeps i failed l = Unit
Keeps i not_ok l = Unit
Keeps i (ok more) [] = Unit
Keeps i (ok more) (q ∷ l) = IsPage i q.current_data more

-- The events of one selection, in a state: prices come with a clock's time, answers are pages, and no
-- stock or interval is chosen.
abbrev pub IsCurrent : Interval → Event → World → Type 0
IsCurrent i (select_stock o) w = ¬ Unit {0}
IsCurrent i (set_interval j) w = ¬ Unit {0}
IsCurrent i (select_stock_synced o) w = ¬ Unit {0}
IsCurrent i (set_interval_synced j) w = ¬ Unit {0}
IsCurrent i chart_ready w = ¬ Unit {0}
IsCurrent i data_synced w = Unit
IsCurrent i loaded_synced w = Unit
IsCurrent i (scrolled range) w = Unit
IsCurrent i (more_answered r) w = Keeps i r w.more
IsCurrent i (history_answered n r) w = ¬ Unit {0}
IsCurrent i (priced price timestamp) w = IsNow timestamp
IsCurrent i (crosshair_moved found) w = Unit

unfoldable pub AreCurrent : Interval → List Event → World → Type 0
AreCurrent i [] w = Unit
AreCurrent i (e ∷ es) w = IsCurrent i e w × AreCurrent i es (step e w)

-- the requests of this selection, each for a series
abbrev pub IsAsked : Interval → MoreRequest → Type 0
IsAsked i q = IsSeries i q.current_data

module _ (api : CandlestickSeries) (i : Interval) (start : api.Series) where
  -- what the chart shows after all calls so far
  abbrev pub displayed : List ChartCall → api.Series
  displayed calls = perform_all api (reverse calls) start

  -- The state and its ref hold series, and the chart shows the series of the state.
  pub record Shows (interval : Interval) (candles volumes : Bool)
      (points points_ref : List OhlcvPoint) (calls : List ChartCall) : Type 0 where
    pub at_interval : interval ≡ i
    pub candles_there : candles ≡ true
    pub volumes_there : volumes ≡ true
    pub series : IsSeries i points
    pub series_ref : IsSeries i points_ref
    pub shows : Mirrors api i points (displayed calls)

  abbrev pub IsShown : PriceChart → Type 0
  IsShown c =
      Shows c.interval_ref c.candle_series c.volume_series c.ohlcv_data c.ohlcv_data_ref c.calls

  -- and each request on its way is for a series
  pub record IsLive (w : World) : Type 0 where
    pub chart : IsShown w.chart
    pub asked : All (IsAsked i) w.more
