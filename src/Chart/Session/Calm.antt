-- ===== src/Chart/Session/Calm.antt =====
-- A whole visit of the chart: stocks and intervals are chosen again and again, but only while no
-- request is on its way.
pub mod Rebuild
pub mod Empty
pub mod Frame
pub mod Kept
pub mod Steps
use stock_anomoly_detection.Prelude.{
  ℕ, zero, suc, ◌≤◌, ◌≡◌, ◌≢◌, Bool, true, false, List, [], ◌∷◌, Option, none, some, length, All,
}
use stock_anomoly_detection.Chart.{OhlcvPoint, Interval}
use stock_anomoly_detection.Chart.Series.{ChartCall, Candle}
use stock_anomoly_detection.Chart.Ticks.Outcome.{IsSeries}
use stock_anomoly_detection.Chart.Ticks.Candles.{IsNow}
use stock_anomoly_detection.Chart.Display.{CandlestickSeries}
use stock_anomoly_detection.Chart.Session.{PriceChart, Response, failed, not_ok, ok}
use stock_anomoly_detection.Chart.Session.Handlers.{HistoryRequest}
use stock_anomoly_detection.Chart.Session.Steps.{
  select_stock_synced, set_interval_synced, World, Event, select_stock, set_interval, chart_ready,
  data_synced, loaded_synced, scrolled, more_answered, history_answered, priced, crosshair_moved,
  step,
}
use stock_anomoly_detection.Chart.Session.Live.{IsCurrent, IsLive, displayed}

-- What the chart shows: nothing, or the series of the chosen stock at an interval.
pub data Phase : Type 0 where
  empty : Phase
  live : Interval → Phase

-- The phase after an event, on a chart of an interval: a history opens the live phase, and another stock
-- or interval ends it.
abbrev pub next : Phase → Event → Interval → Phase
next empty (select_stock o) i = empty
next empty (set_interval j) i = empty
next empty (select_stock_synced o) i = empty
next empty (set_interval_synced j) i = empty
next empty chart_ready i = empty
next empty data_synced i = empty
next empty loaded_synced i = empty
next empty (scrolled range) i = empty
next empty (more_answered r) i = empty
next empty (history_answered n failed) i = empty
next empty (history_answered n not_ok) i = empty
next empty (history_answered n (ok history)) i = live i
next empty (priced price timestamp) i = empty
next empty (crosshair_moved found) i = empty
next (live j) (select_stock o) i = empty
next (live j) (set_interval k) i = empty
next (live j) (select_stock_synced o) i = empty
next (live j) (set_interval_synced k) i = empty
next (live j) chart_ready i = live j
next (live j) data_synced i = live j
next (live j) loaded_synced i = live j
next (live j) (scrolled range) i = live j
next (live j) (more_answered r) i = live j
next (live j) (history_answered n r) i = live j
next (live j) (priced price timestamp) i = live j
next (live j) (crosshair_moved found) i = live j

-- a history in order, or no history
abbrev pub IsHistory : Interval → Response → Type 0
IsHistory i failed = Unit
IsHistory i not_ok = Unit
IsHistory i (ok history) = IsSeries i history

-- Which events a phase allows. A stock or an interval is chosen, and a chart that is ready asks for a
-- history, while nothing is on its way. With such a choice, and until a history has arrived, the effect that copies the candles into the ref runs only if there are none: a
-- price whose render comes with a choice or after it is left out.
abbrev pub IsCalm : Phase → Event → World → Type 0
IsCalm empty (select_stock o) w = w.histories ≡ []
IsCalm empty (set_interval j) w = w.histories ≡ []
IsCalm empty (select_stock_synced o) w = (w.histories ≡ []) × (w.chart.ohlcv_data ≡ [])
IsCalm empty (set_interval_synced j) w = (w.histories ≡ []) × (w.chart.ohlcv_data ≡ [])
IsCalm empty chart_ready w = w.histories ≡ []
IsCalm empty data_synced w = w.chart.ohlcv_data ≡ []
IsCalm empty loaded_synced w = Unit
IsCalm empty (scrolled range) w = Unit
IsCalm empty (more_answered r) w = Unit
IsCalm empty (history_answered zero r) w = (w.histories ≢ []) × IsHistory w.chart.interval r
IsCalm empty (history_answered (suc n) r) w = ¬ Unit {0}
IsCalm empty (priced price timestamp) w = Unit
IsCalm empty (crosshair_moved found) w = Unit
IsCalm (live i) (select_stock o) w = w.more ≡ []
IsCalm (live i) (set_interval j) w = w.more ≡ []
IsCalm (live i) (select_stock_synced o) w = (w.more ≡ []) × (w.chart.ohlcv_data ≡ [])
IsCalm (live i) (set_interval_synced j) w = (w.more ≡ []) × (w.chart.ohlcv_data ≡ [])
IsCalm (live i) chart_ready w = ¬ Unit {0}
IsCalm (live i) data_synced w = Unit
IsCalm (live i) loaded_synced w = Unit
IsCalm (live i) (scrolled range) w = Unit
IsCalm (live i) (more_answered r) w = IsCurrent i (more_answered r) w
IsCalm (live i) (history_answered n r) w = ¬ Unit {0}
IsCalm (live i) (priced price timestamp) w = IsNow timestamp
IsCalm (live i) (crosshair_moved found) w = Unit

unfoldable pub AreCalm : Phase → List Event → World → Type 0
AreCalm p [] w = Unit
AreCalm p (e ∷ es) w = IsCalm p e w × AreCalm (next p e w.chart.interval) es (step e w)

-- the phase after a run
unfoldable pub last_phase : Phase → List Event → World → Phase
last_phase p [] w = p
last_phase p (e ∷ es) w = last_phase (next p e w.chart.interval) es (step e w)

module _ (api : CandlestickSeries) (start : api.Series) where
  -- Where a chart is there it shows nothing, and its series are of the chosen interval; no candle is in
  -- the ref.
  pub record Blank (there candles volumes ready : Bool) (interval interval_ref : Interval)
      (points_ref : List OhlcvPoint) (calls : List ChartCall) : Type 0 where
    pub candles_same : candles ≡ there
    pub volumes_same : volumes ≡ there
    pub ready_there : ready ≡ true → there ≡ true
    pub synced : there ≡ true → interval_ref ≡ interval
    pub no_candles : points_ref ≡ []
    pub shows_none : there ≡ true → api.shown (displayed api interval start calls) ≡ []

  abbrev pub IsBlank : PriceChart → Type 0
  IsBlank c =
      Blank c.chart_api c.candle_series c.volume_series c.is_chart_ready c.interval c.interval_ref
        c.ohlcv_data_ref c.calls

  -- and one history at most is on its way, to a chart that is there
  pub record IsEmpty (w : World) : Type 0 where
    pub chart : IsBlank w.chart
    pub no_more : w.more ≡ []
    pub one_history : length w.histories ≤ 1
    pub asked : w.histories ≢ [] → w.chart.chart_api ≡ true

  -- The chart shows exactly the candles of the state, a series in order of the chosen interval.
  pub record IsShowing (i : Interval) (w : World) : Type 0 where
    pub series : IsLive api i start w
    pub there : w.chart.chart_api ≡ true
    pub chosen : w.chart.interval ≡ i
    pub no_histories : w.histories ≡ []

  abbrev pub Promise : Phase → World → Type 0
  Promise empty w = IsEmpty w
  Promise (live i) w = IsShowing i w
