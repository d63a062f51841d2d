-- ===== src/Chart/Session.antt =====
-- The state of the `PriceChart` component of price-chart.tsx and what each effect, callback and
-- answer of the server does to it. A handler reads refs and closures, and writes state.
pub mod Handlers
pub mod Steps
pub mod Calls
pub mod Safety
pub mod Usable
pub mod Fetching
pub mod Switch
pub mod ScrollBack
pub mod Races
pub mod Late
pub mod Live
pub mod Overwritten
pub mod Calm
pub mod Failed
pub mod Asked
use stock_anomoly_detection.Prelude.{
  ℕ, ◌+◌, ◌*◌, ◌≡◌, refl, Bool, true, false, not, ◌&&◌, ◌||◌, List, [], ◌∷◌, ◌++◌, Option, none,
  some, last, keep, length, ltb, ◌==◌, if◌then◌else◌,
}
use stock_anomoly_detection.Prelude.Int.{ℤ, pos, ◌+ℤ◌, ◌-ℤ◌, ltb_ℤ, max_ℤ}
use stock_anomoly_detection.Text.{Text}
use stock_anomoly_detection.Chart.{OhlcvPoint, Interval, day}
use stock_anomoly_detection.Chart.Series.{
  ChartCall, set_candles, set_volumes, fit_content, create_chart, remove_chart, update_chart_data,
}
use stock_anomoly_detection.Chart.Ticks.{PendingTick, tick_update, apply_ticks}
use stock_anomoly_detection.Chart.Paging.{earliest_point, end_date, merge_older}

pub record Legend : Type 0 where
  pub opening : ℕ
  pub high : ℕ
  pub low : ℕ
  pub close : ℕ

-- A ref that holds an object of the chart library is true. `calls` has the latest call in front.
pub record PriceChart : Type 0 where
  pub is_chart_ready : Bool
  pub is_history_loaded : Bool
  pub is_loading_more : Bool
  pub ohlcv_data : List OhlcvPoint
  pub interval : Interval
  pub legend_data : Option Legend
  pub chart_api : Bool
  pub candle_series : Bool
  pub volume_series : Bool
  pub ohlcv_data_ref : List OhlcvPoint
  pub interval_ref : Interval
  pub tick_buffer : List PendingTick
  pub is_fetching_ref : Bool
  pub no_more_data_ref : Bool
  pub is_history_loaded_ref : Bool
  pub calls : List ChartCall

abbrev pub initial : PriceChart
initial = record {
  is_chart_ready = false;
  is_history_loaded = false;
  is_loading_more = false;
  ohlcv_data = [];
  interval = day;
  legend_data = none;
  chart_api = false;
  candle_series = false;
  volume_series = false;
  ohlcv_data_ref = [];
  interval_ref = day;
  tick_buffer = [];
  is_fetching_ref = false;
  no_more_data_ref = false;
  is_history_loaded_ref = false;
  calls = [];
}

unfoldable pub push_all : List ChartCall → List ChartCall → List ChartCall
push_all [] log = log
push_all (c ∷ cs) log = push_all cs (c ∷ log)

unfoldable pub push : List ChartCall → PriceChart → PriceChart
push cs s = record s { calls = push_all cs s.calls }

-- the three effects that copy state into a ref
unfoldable pub sync_ohlcv_data : PriceChart → PriceChart
sync_ohlcv_data s = record s { ohlcv_data_ref = s.ohlcv_data }

unfoldable pub sync_interval : PriceChart → PriceChart
sync_interval s = record s { interval_ref = s.interval }

unfoldable pub sync_is_history_loaded : PriceChart → PriceChart
sync_is_history_loaded s = record s { is_history_loaded_ref = s.is_history_loaded }

-- The first effect's cleanup, which exists once the effect has made a chart.
unfoldable pub clean_up : PriceChart → PriceChart
clean_up s =
    if s.chart_api
    then push (remove_chart ∷ []) (record s {
      ohlcv_data_ref = [];
      no_more_data_ref = false;
      is_chart_ready = false;
      chart_api = false;
      candle_series = false;
      volume_series = false;
    })
    else s

-- the first effect, given whether a stock is selected and the container is mounted
unfoldable pub initialize_chart : Bool → PriceChart → PriceChart
initialize_chart has_stock s =
    if not has_stock
    then s
    else push (create_chart ∷ []) (record s {
      chart_api = true;
      candle_series = true;
      volume_series = true;
      is_chart_ready = true;
      no_more_data_ref = false;
    })

-- `subscribeCrosshairMove`: the candle under the crosshair, if there is one
unfoldable pub on_crosshair_move : Option Legend → PriceChart → PriceChart
on_crosshair_move found s = record s { legend_data = found }

-- `updateChartData(data)`
unfoldable pub show_data : List OhlcvPoint → PriceChart → PriceChart
show_data points s =
    push (update_chart_data s.candle_series s.volume_series s.interval_ref points) s

-- an answer to a request for candles: an exception, an error status, or candles
pub data Response : Type 0 where
  failed : Response
  not_ok : Response
  ok : List OhlcvPoint → Response

-- A request for older candles, with the series that the handler had when it was made.
pub record MoreRequest : Type 0 where
  pub ticker : Text
  pub interval : Interval
  pub end_date : Text
  pub current_data : List OhlcvPoint

-- the request of `loadMore`, made once its guard has passed
unfoldable pub start_loading :
    Text → Interval → PriceChart → List OhlcvPoint → PriceChart × Option MoreRequest
start_loading ticker i s [] = (s, none)
start_loading ticker i s (first ∷ rest) =
    if s.is_fetching_ref || not s.is_history_loaded_ref then (s, none) else (
      record s { is_fetching_ref = true; is_loading_more = true },
      some (record {
        ticker = ticker;
        interval = i;
        end_date = end_date i (earliest_point first (first ∷ rest)).time;
        current_data = first ∷ rest;
      }),
    )

-- `loadMore` up to its `await`, with the ticker and interval of its closure
unfoldable pub load_more : Text → Interval → PriceChart → PriceChart × Option MoreRequest
load_more ticker i s = start_loading ticker i s s.ohlcv_data_ref
