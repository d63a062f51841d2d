-- ===== src/Chart/Display.antt =====
-- What the chart shows. The candlestick series of the chart library is a parameter, with what its
-- documentation says of `setData` and `update`.
pub mod Mirror
pub mod First
use stock_anomoly_detection.Prelude.{ℕ, ◌≡◌, true, List, [], ◌∷◌, ◌++◌, map}
use stock_anomoly_detection.Chart.{OhlcvPoint, Interval, key_lt}
use stock_anomoly_detection.Chart.Series.{
  Bar, Candle, chart_key, ChartCall, set_candles, set_volumes, update_candle, fit_content,
  create_chart, remove_chart,
}
use stock_anomoly_detection.Chart.Ticks.{candle_at}

abbrev pub candle_of_bar : Bar → Candle
candle_of_bar b = record {
  time = b.time;
  opening = b.opening;
  high = b.high;
  low = b.low;
  close = b.close;
}

-- `ISeriesApi<"Candlestick">`: `setData` replaces what is shown, and `update` changes the last
-- candle if its time is the given one, and appends if it is later. An update of an older candle,
-- which the library refuses, is left open.
pub record CandlestickSeries : Type 1 where
  pub Series : Type 0
  pub set_data : List Bar → Series → Series
  pub update : Candle → Series → Series
  pub shown : Series → List Candle
  pub shown-set_data :
      (bars : List Bar) (s : Series) → shown (set_data bars s) ≡ map candle_of_bar bars
  pub shown-update_first :
      (new : Candle) (s : Series) → shown s ≡ [] → shown (update new s) ≡ new ∷ []
  pub shown-update_last :
      (before : List Candle) (old new : Candle) (s : Series)
      → shown s ≡ before ++ old ∷ []
      → old.time ≡ new.time
      → shown (update new s) ≡ before ++ new ∷ []
  pub shown-update_later :
      (before : List Candle) (old new : Candle) (s : Series)
      → shown s ≡ before ++ old ∷ []
      → key_lt old.time new.time ≡ true
      → shown (update new s) ≡ (before ++ old ∷ []) ++ new ∷ []

-- the candle that a point of the series is shown as
abbrev pub candle_of : Interval → OhlcvPoint → Candle
candle_of i p = candle_at (chart_key i p.time) p

module _ (api : CandlestickSeries) where
  -- what a call does to the candlestick series; a series is made and removed with its chart
  unfoldable pub perform : ChartCall → api.Series → api.Series
  perform (set_candles bars) s = api.set_data bars s
  perform (update_candle c) s = api.update c s
  perform (set_volumes bars) s = s
  perform fit_content s = s
  perform create_chart s = api.set_data [] s
  perform remove_chart s = api.set_data [] s

  unfoldable pub perform_all : List ChartCall → api.Series → api.Series
  unfolding perform
  perform_all [] s = s
  perform_all (c ∷ cs) s = perform_all cs (perform c s)
