-- ===== src/Chart/Session/Races.antt =====
-- Answers that arrive after the chart has moved on.
use stock_anomoly_detection.Prelude.{
  ◌<◌, ◌≡◌, refl, ◌≢◌, true, false, not, List, [], ◌∷◌, ◌++◌, some, length, arith, ◌==◌, if_cases,
  Bool-cases, inl, inr, ap, ◌∙◌,
}
use stock_anomoly_detection.Text.{Text}
use stock_anomoly_detection.Chart.{OhlcvPoint, Interval}
use stock_anomoly_detection.Chart.Ticks.{PendingTick}
use stock_anomoly_detection.Chart.Paging.{merge_older}
use stock_anomoly_detection.Chart.Session.{
  PriceChart, sync_interval, clean_up, initialize_chart, push, show_data, MoreRequest, ok,
}
use stock_anomoly_detection.Chart.Session.Handlers.{
  HistoryRequest, on_history, pending_ticks, apply_all, fit, on_price,
}
use stock_anomoly_detection.Chart.Session.Steps.{
  World, Event, set_interval, history_answered, more_answered, priced, answered, without,
  answer_more, answer_history, step, run,
}
use stock_anomoly_detection.Chart.Session.Switch.{
  on_more-grown, on_more-interval, on_history-interval, rebuilt-interval, world, switched,
  first_request, set_interval_lem,
}

-- Older candles of one interval that are on their way when the interval changes end up as the
-- series of the new one, also when its own history has been loaded before they arrive.
pub late_candles_replace :
    (s : PriceChart) (ticker : Text) (q : MoreRequest) (j : Interval)
    (history more : List OhlcvPoint)
    → s.is_chart_ready ≡ true
    → length q.current_data < length (merge_older more q.current_data)
    → more ≢ []
    → (let w =
          run
            (set_interval j ∷ history_answered 0 (ok history) ∷ more_answered (ok more) ∷ [])
            (world s ticker (q ∷ [])) in
        (w.chart.ohlcv_data ≡ merge_older more q.current_data) × (w.chart.interval ≡ j))
unfolding run step answer_history answer_more
late_candles_replace s ticker q j history more ready h n =
    rw (set_interval_lem s ticker (q ∷ []) j ready) (
      on_more-grown q more _ h n,
      on_more-interval q (ok more) _
          ∙ (on_history-interval (ok history) (switched j s)
              ∙ rebuilt-interval true (record s { interval = j })),
    )

abbrev pub price_events : List PendingTick → List Event
price_events [] = []
price_events (t ∷ ts) = priced (some t.price) t.timestamp ∷ price_events ts

-- the chart waits for its history, and its candles are not in the ref
record IsWaiting (r : HistoryRequest) (w : World) : Type 0 where
  not_loaded : w.chart.is_history_loaded ≡ false
  no_candles : w.chart.ohlcv_data_ref ≡ []
  asked : w.histories ≡ r ∷ []

priced-IsWaiting :
    (r : HistoryRequest) (t : PendingTick) (w : World)
    → IsWaiting r w
    → IsWaiting r (step (priced (some t.price) t.timestamp) w)
unfolding step on_price
priced-IsWaiting r t w h =
    let Held = λ (s : PriceChart). IsWaiting r (record w { chart = s }) in
    let e = h.not_loaded in
    if_cases Held (t.price == 0) (λ zero_price. h)
      λ other.
        if_cases Held (not w.chart.is_history_loaded)
          (λ waiting. record {
            not_loaded = h.not_loaded;
            no_candles = h.no_candles;
            asked = h.asked;
          })
          (λ loaded. absurd (ground arith))

prices-IsWaiting :
    (r : HistoryRequest) (ts : List PendingTick) (w : World)
    → IsWaiting r w
    → IsWaiting r (run (price_events ts) w)
unfolding run
prices-IsWaiting r [] w h = h
prices-IsWaiting r (t ∷ ts) w h =
    prices-IsWaiting r ts (step (priced (some t.price) t.timestamp) w) (priced-IsWaiting r t w h)

pub apply_all-nothing :
    (ts : List PendingTick) (s : PriceChart) → s.ohlcv_data_ref ≡ [] → apply_all ts s ≡ s
unfolding apply_all
apply_all-nothing ts s e = elim (Bool-cases s.candle_series) [
  | inl there ↦ simp (there, e)
  | inr gone ↦ simp gone
]

pub fit-ref : (s : PriceChart) → (fit s).ohlcv_data_ref ≡ s.ohlcv_data_ref
unfolding fit push
fit-ref s = ground arith

fit-data : (s : PriceChart) → (fit s).ohlcv_data ≡ s.ohlcv_data
unfolding fit push
fit-data s = ground arith

pub on_history-nothing :
    (history : List OhlcvPoint) (s : PriceChart)
    → s.ohlcv_data_ref ≡ []
    → ((on_history (ok history) s).ohlcv_data ≡ history)
      × ((on_history (ok history) s).tick_buffer ≡ [])
unfolding on_history show_data push
on_history-nothing history s e =
    let s' = show_data history (record s { ohlcv_data = history }) in
    (
      rw (apply_all-nothing (pending_ticks history (fit s').tick_buffer) (fit s') (fit-ref s' ∙ e))
          (fit-data s'),
      refl,
    )

switched-ref :
    (j : Interval) (s : PriceChart) → s.chart_api ≡ true → (switched j s).ohlcv_data_ref ≡ []
unfolding initialize_chart sync_interval clean_up push
switched-ref j s there = ground arith

run-append : (es fs : List Event) (w : World) → run (es ++ fs) w ≡ run fs (run es w)
unfolding run
run-append [] fs w = refl
run-append (e ∷ es) fs w = run-append es fs (step e w)

answered_lem :
    (r : HistoryRequest) (history : List OhlcvPoint) (w : World)
    → w.histories ≡ r ∷ []
    → (step (history_answered 0 (ok history)) w).chart ≡ on_history (ok history) w.chart
unfolding step answer_history
answered_lem r history w e = ap (λ hs. (choose hs).chart) e
  where
    choose : List HistoryRequest → World
    choose hs = elim (answered 0 hs) [
      | true ↦ record w {
        chart = on_history (ok history) w.chart;
        histories = without 0 w.histories;
      }
      | false ↦ w
    ]

-- The prices that come in while the history of a new interval loads are buffered and then lost:
-- whatever they are, the series after the history's arrival is the history alone, and the buffer
-- is empty.
pub buffered_prices_lost :
    (s : PriceChart) (ticker : Text) (j : Interval) (ts : List PendingTick)
    (history : List OhlcvPoint)
    → s.is_chart_ready ≡ true
    → s.chart_api ≡ true
    → (let w =
          run
            (set_interval j ∷ (price_events ts ++ history_answered 0 (ok history) ∷ []))
            (world s ticker []) in
        (w.chart.ohlcv_data ≡ history) × (w.chart.tick_buffer ≡ []))
unfolding run
buffered_prices_lost s ticker j ts history ready there =
    let w = step (set_interval j) (world s ticker []) in
    let waiting : IsWaiting (first_request ticker (switched j s)) w =
      rw (set_interval_lem s ticker [] j ready)
        (record { not_loaded = refl; no_candles = switched-ref j s there; asked = refl }) in
    let kept = prices-IsWaiting (first_request ticker (switched j s)) ts w waiting in
    rw (run-append (price_events ts) (history_answered 0 (ok history) ∷ []) w) (
      rw
        (answered_lem (first_request ticker (switched j s)) history (run (price_events ts) w)
          kept.asked)
        (on_history-nothing history (run (price_events ts) w).chart kept.no_candles))
