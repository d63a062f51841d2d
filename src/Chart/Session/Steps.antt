-- ===== src/Chart/Session/Steps.antt =====
-- `PriceChart` as React runs it: a step for each event, in any order. React's rules used here: on a
-- change of a dependency the old effect's cleanup runs first, then the effects in the order of the
-- source, and a ref is read at once while state is read from the render.
use stock_anomoly_detection.Prelude.{
  ℕ, zero, suc, Bool, true, false, List, [], ◌∷◌, ◌++◌, Option, none, some,
}
use stock_anomoly_detection.Text.{Text}
use stock_anomoly_detection.Chart.{OhlcvPoint, Interval}
use stock_anomoly_detection.Chart.Session.{
  PriceChart, Legend, sync_ohlcv_data, sync_interval, sync_is_history_loaded, clean_up,
  initialize_chart, on_crosshair_move, MoreRequest, Response,
}
use stock_anomoly_detection.Chart.Session.Handlers.{
  LogicalRange, on_visible_range, on_more, HistoryRequest, load_history, on_history, on_price,
}

-- The chart, the ticker of the selected stock, and the requests that are not answered yet.
pub record World : Type 0 where
  pub chart : PriceChart
  pub selected : Option Text
  pub more : List MoreRequest
  pub histories : List HistoryRequest

-- A selection or an interval in an event differs from the one before; React ignores others. The
-- events with `synced` are renders in which `ohlcvData` has changed too.
pub data Event : Type 0 where
  select_stock : Option Text → Event
  set_interval : Interval → Event
  select_stock_synced : Option Text → Event
  set_interval_synced : Interval → Event
  chart_ready : Event
  data_synced : Event
  loaded_synced : Event
  scrolled : Option LogicalRange → Event
  more_answered : Response → Event
  history_answered : ℕ → Response → Event
  priced : Option ℕ → ℕ → Event
  crosshair_moved : Option Legend → Event

abbrev pub is_some {ℓ} : {A : Type ℓ} → Option A → Bool
is_some none = false
is_some (some a) = true

abbrev pub also : {A : Type 0} → List A → Option A → List A
also xs none = xs
also xs (some x) = xs ++ x ∷ []

abbrev pub without : {A : Type 0} → ℕ → List A → List A
without n [] = []
without zero (x ∷ xs) = xs
without (suc n) (x ∷ xs) = x ∷ without n xs

abbrev pub answered : {A : Type 0} → ℕ → List A → Bool
answered n [] = false
answered zero (x ∷ xs) = true
answered (suc n) (x ∷ xs) = answered n xs

-- the first two effects, run again for a ticker or an interval; `ready` is from the last render
unfoldable pub rebuild : Option Text → Bool → PriceChart → PriceChart × Option HistoryRequest
rebuild selected ready s =
    load_history selected ready (initialize_chart (is_some selected) (sync_interval (clean_up s)))

unfoldable pub reload : Option Text → Bool → PriceChart → World → World
reload selected ready s w =
    let r = rebuild selected ready s in
    record w { chart = r.0; selected = selected; histories = also w.histories r.1 }

-- With a changed `ohlcvData` its effect sets the ref behind the cleanup, which has emptied it; the
-- effects that follow neither read nor write the ref.
abbrev pub with_candles : List OhlcvPoint → World → World
with_candles points w = record w { chart = record w.chart { ohlcv_data_ref = points } }

unfoldable pub scroll : Option Text → Option LogicalRange → World → World
scroll none range w = w
scroll (some ticker) range w =
    let r = on_visible_range ticker w.chart.interval range w.chart in
    record w { chart = r.0; more = also w.more r.1 }

unfoldable pub answer_more : Response → List MoreRequest → World → World
answer_more r [] w = w
answer_more r (request ∷ rest) w = record w { chart = on_more request r w.chart; more = rest }

unfoldable pub run_history : World → World
run_history w =
    let r = load_history w.selected w.chart.is_chart_ready w.chart in
    record w { chart = r.0; histories = also w.histories r.1 }

unfoldable pub answer_history : ℕ → Response → World → World
answer_history n r w = elim (answered n w.histories) [
  | true ↦ record w { chart = on_history r w.chart; histories = without n w.histories }
  | false ↦ w
]

unfoldable pub step : Event → World → World
step (select_stock selected) w = reload selected w.chart.is_chart_ready w.chart w
step (set_interval i) w =
    reload w.selected w.chart.is_chart_ready (record w.chart { interval = i }) w
step (select_stock_synced selected) w =
    with_candles w.chart.ohlcv_data (reload selected w.chart.is_chart_ready w.chart w)
step (set_interval_synced i) w =
    with_candles w.chart.ohlcv_data
      (reload w.selected w.chart.is_chart_ready (record w.chart { interval = i }) w)
step chart_ready w = run_history w
step data_synced w = record w { chart = sync_ohlcv_data w.chart }
step loaded_synced w = record w { chart = sync_is_history_loaded w.chart }
step (scrolled range) w = scroll w.selected range w
step (more_answered r) w = answer_more r w.more w
step (history_answered n r) w = answer_history n r w
step (priced price timestamp) w = record w { chart = on_price price timestamp w.chart }
step (crosshair_moved found) w = record w { chart = on_crosshair_move found w.chart }

unfoldable pub run : List Event → World → World
run [] w = w
run (e ∷ es) w = run es (step e w)
