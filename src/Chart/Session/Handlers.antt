-- ===== src/Chart/Session/Handlers.antt =====
-- The handlers of price-chart.tsx that scrolling, prices and answers of the server run.
use stock_anomoly_detection.Prelude.{
  ℕ, ◌*◌, Bool, true, false, not, ◌||◌, List, [], ◌∷◌, ◌++◌, Option, none, some, last, keep, length,
  ltb, ◌==◌, if◌then◌else◌,
}
use stock_anomoly_detection.Prelude.Int.{ℤ, pos, ◌+ℤ◌, ◌-ℤ◌, ltb_ℤ, max_ℤ}
use stock_anomoly_detection.Text.{Text}
use stock_anomoly_detection.Chart.{OhlcvPoint, Interval}
use stock_anomoly_detection.Chart.Series.{set_candles, set_volumes, fit_content}
use stock_anomoly_detection.Chart.Ticks.{PendingTick, apply_ticks}
use stock_anomoly_detection.Chart.Paging.{merge_older}
use stock_anomoly_detection.Chart.Session.{
  PriceChart, push, show_data, MoreRequest, Response, failed, not_ok, ok, load_more,
}

-- A visible range of bars, in thousandths of a bar.
pub record LogicalRange : Type 0 where
  pub from : ℤ
  pub to : ℤ

-- `range.from < Math.max((range.to - range.from) * 0.5, 50)`, with both sides doubled
unfoldable pub near_start : LogicalRange → Bool
near_start r = ltb_ℤ (r.from +ℤ r.from) (max_ℤ (r.to -ℤ r.from) (pos 100000))

unfoldable pub on_range :
    Text → Interval → LogicalRange → PriceChart → PriceChart × Option MoreRequest
on_range ticker i r s =
    if s.is_fetching_ref || s.no_more_data_ref
    then (s, none)
    else if length s.ohlcv_data_ref == 0
    then (s, none)
    else if near_start r
    then load_more ticker i s
    else (s, none)

-- `subscribeVisibleLogicalRangeChange`
unfoldable pub on_visible_range :
    Text → Interval → Option LogicalRange → PriceChart → PriceChart × Option MoreRequest
on_visible_range ticker i none s = (s, none)
on_visible_range ticker i (some r) s = on_range ticker i r s

unfoldable pub add_older : List OhlcvPoint → List OhlcvPoint → PriceChart → PriceChart
add_older current [] s = record s { no_more_data_ref = true }
add_older current (m ∷ more) s =
    let unique_sorted = merge_older (m ∷ more) current in
    if ltb (length current) (length unique_sorted)
    then show_data unique_sorted (record s { ohlcv_data = unique_sorted })
    else record s { no_more_data_ref = true }

-- the `finally` block of `loadMore`
abbrev pub stop_loading : PriceChart → PriceChart
stop_loading s = record s { is_fetching_ref = false; is_loading_more = false }

-- `loadMore` from its `await` on
unfoldable pub on_more : MoreRequest → Response → PriceChart → PriceChart
on_more request failed s = stop_loading s
on_more request not_ok s = stop_loading s
on_more request (ok more) s = stop_loading (add_older request.current_data more s)

-- `applyTick` for each of several ticks: its guard reads what no tick changes
unfoldable pub apply_all : List PendingTick → PriceChart → PriceChart
apply_all ticks s =
    if not s.candle_series || length s.ohlcv_data_ref == 0
    then s
    else let after = apply_ticks s.interval_ref ticks s.ohlcv_data in
      push after.1 (record s { ohlcv_data = after.0 })

pub record HistoryRequest : Type 0 where
  pub ticker : Text
  pub interval : Interval

-- the `setData([])` of the history effect
unfoldable pub clear_series : PriceChart → PriceChart
clear_series s =
    push
      ((if s.candle_series then set_candles [] ∷ [] else [])
        ++ (if s.volume_series then set_volumes [] ∷ [] else []))
      s

-- the second effect, with `isChartReady` of its closure
unfoldable pub load_history : Option Text → Bool → PriceChart → PriceChart × Option HistoryRequest
load_history none ready s =
    (clear_series (record s { is_history_loaded = false; ohlcv_data = [] }), none)
load_history (some ticker) ready s = if not ready then (s, none) else (
  record s { is_history_loaded = false },
  some (record { ticker = ticker; interval = s.interval }),
)

abbrev pub last_time : List OhlcvPoint → ℕ
last_time history = elim (last history) [ none ↦ 0 | some p ↦ p.time ]

-- `tickBuffer.current.filter(t => t.timestamp / 1000 > lastHistoryTime)`
unfoldable pub pending_ticks : List OhlcvPoint → List PendingTick → List PendingTick
pending_ticks history = keep (λ (t : PendingTick). ltb (last_time history * 1000) t.timestamp)

unfoldable pub fit : PriceChart → PriceChart
fit s = if s.chart_api then push (fit_content ∷ []) s else s

-- `fetchHistory` from its `await` on; no tick is pending on the empty list
unfoldable pub on_history : Response → PriceChart → PriceChart
on_history failed s = record s { is_history_loaded = true }
on_history not_ok s = record s { is_history_loaded = true }
on_history (ok history) s =
    let shown = fit (show_data history (record s { ohlcv_data = history })) in
    let applied = apply_all (pending_ticks history shown.tick_buffer) shown in
    record applied { tick_buffer = []; is_history_loaded = true }

-- The third effect: the price read by `parseFloat`, none for NaN, and the clock.
unfoldable pub on_price : Option ℕ → ℕ → PriceChart → PriceChart
on_price none timestamp s = s
on_price (some price) timestamp s =
    let tick : PendingTick = record { price = price; timestamp = timestamp } in
    if price == 0
    then s
    else if not s.is_history_loaded
    then record s { tick_buffer = s.tick_buffer ++ tick ∷ [] }
    else apply_all (tick ∷ []) s
