-- ===== src/Chart/Session/Failed.antt =====
-- A history that cannot be had.
use mathlib.Core.Path.{subst}
use stock_anomoly_detection.Prelude.{
  ℕ, ◌≡◌, ◌≢◌, refl, sym, ap, ◌∙◌, true, false, not, ◌==◌, List, [], ◌∷◌, Option, some, if_cases,
  arith,
}
use stock_anomoly_detection.Text.{Text}
use stock_anomoly_detection.Chart.Ticks.{PendingTick}
use stock_anomoly_detection.Chart.Session.{
  PriceChart, push, clean_up, sync_interval, initialize_chart, Response, failed, not_ok, ok,
}
use stock_anomoly_detection.Chart.Session.Handlers.{HistoryRequest, on_history, on_price}
use stock_anomoly_detection.Chart.Session.Races.{apply_all-nothing, price_events}
use stock_anomoly_detection.Chart.Session.Switch.{world, first_request, load_history-some}
use stock_anomoly_detection.Chart.Session.Steps.{
  World, select_stock, history_answered, priced, also, rebuild, reload, answer_history, step, run,
}
use stock_anomoly_detection.Views.Chart.{status, streaming, status_lem}

-- an answer without candles: an exception or an error status
abbrev pub IsFailure : Response → Type 0
IsFailure failed = Unit
IsFailure not_ok = Unit
IsFailure (ok history) = ¬ Unit {0}

-- the chart after another stock was selected
abbrev selected_chart : PriceChart → PriceChart
selected_chart s = record (initialize_chart true (sync_interval (clean_up s))) {
  is_history_loaded = false;
}

select_stock-world :
    (s : PriceChart) (former latter : Text)
    → s.is_chart_ready ≡ true
    → step (select_stock (some latter)) (world s former []) ≡ record {
      chart = selected_chart s;
      selected = some latter;
      more = [];
      histories = first_request latter (selected_chart s) ∷ [];
    }
unfolding step reload rebuild
select_stock-world s former latter ready =
    ap
      (λ (r : PriceChart × Option HistoryRequest).
        let w : World = record {
          chart = r.0;
          selected = some latter;
          more = [];
          histories = also [] r.1;
        } in
        w)
      (load_history-some latter s.is_chart_ready
        (initialize_chart true (sync_interval (clean_up s))) ready)

-- what no failure and no price changes then
record IsStale (s : PriceChart) (w : World) : Type 0 where
  data_kept : w.chart.ohlcv_data ≡ s.ohlcv_data
  no_points : w.chart.ohlcv_data_ref ≡ []
  loaded : w.chart.is_history_loaded ≡ true
  same_more : w.chart.is_loading_more ≡ s.is_loading_more

selected_chart-data :
    (s : PriceChart)
    → s.chart_api ≡ true
    → ((selected_chart s).ohlcv_data ≡ s.ohlcv_data)
      × ((selected_chart s).ohlcv_data_ref ≡ [])
      × ((selected_chart s).is_loading_more ≡ s.is_loading_more)
unfolding initialize_chart sync_interval clean_up push
selected_chart-data s there = (ground arith, ground arith, ground arith)

answered-IsStale :
    (r : Response) (s : PriceChart) (latter : Text)
    → IsFailure r
    → s.chart_api ≡ true
    → IsStale s (
        step (history_answered 0 r) (record {
          chart = selected_chart s;
          selected = some latter;
          more = [];
          histories = first_request latter (selected_chart s) ∷ [];
        }))
unfolding step answer_history on_history
answered-IsStale failed s latter f there =
    let d = selected_chart-data s there in
    record { data_kept = d.0; no_points = d.1; loaded = refl; same_more = d.2 }
answered-IsStale not_ok s latter f there =
    let d = selected_chart-data s there in
    record { data_kept = d.0; no_points = d.1; loaded = refl; same_more = d.2 }
answered-IsStale (ok history) s latter f there = absurd (f tt)

on_price-nothing :
    (p t : ℕ) (c : PriceChart)
    → c.ohlcv_data_ref ≡ []
    → c.is_history_loaded ≡ true
    → on_price (some p) t c ≡ c
unfolding on_price
on_price-nothing p t c e l =
    if_cases (λ d. d ≡ c) (p == 0) (λ _. refl)
      (λ _.
        if_cases (λ d. d ≡ c) (not c.is_history_loaded) (λ waits. absurd (ground arith))
          (λ _. apply_all-nothing (record { price = p; timestamp = t } ∷ []) c e))

prices-IsStale :
    (s : PriceChart) (ts : List PendingTick) (w : World)
    → IsStale s w
    → IsStale s (run (price_events ts) w)
unfolding run step
prices-IsStale s [] w h = h
prices-IsStale s (t ∷ ts) w h =
    let same = on_price-nothing t.price t.timestamp w.chart h.no_points h.loaded in
    prices-IsStale s ts (step (priced (some t.price) t.timestamp) w) (record {
      data_kept = ap (λ (c : PriceChart). c.ohlcv_data) same ∙ h.data_kept;
      no_points = ap (λ (c : PriceChart). c.ohlcv_data_ref) same ∙ h.no_points;
      loaded = ap (λ (c : PriceChart). c.is_history_loaded) same ∙ h.loaded;
      same_more = ap (λ (c : PriceChart). c.is_loading_more) same ∙ h.same_more;
    })

-- Where another stock is selected on a chart with candles, and its history cannot be had, the candles of
-- the former stock stay the series, whatever prices of the new stock arrive, and the status line says
-- that data streams, if no older candles are on their way.
pub failed_history_stale :
    (r : Response) (s : PriceChart) (former latter : Text) (ts : List PendingTick)
    → IsFailure r
    → s.is_chart_ready ≡ true
    → s.chart_api ≡ true
    → s.is_loading_more ≡ false
    → s.ohlcv_data ≢ []
    → (let w =
          run
            (price_events ts)
            (run (select_stock (some latter) ∷ history_answered 0 r ∷ []) (world s former [])) in
        (w.chart.ohlcv_data ≡ s.ohlcv_data) × (status w.chart ≡ streaming))
unfolding run
failed_history_stale r s former latter ts f ready there idle some_data = (
  stale.data_kept,
  (status_lem w.chart).0.1
      (stale.same_more ∙ idle, stale.loaded, λ e. some_data (sym stale.data_kept ∙ e)),
)
  where
    asked : World
    asked = run (select_stock (some latter) ∷ history_answered 0 r ∷ []) (world s former [])

    w : World
    w = run (price_events ts) asked

    first : IsStale s asked
    first =
        subst (λ v. IsStale s (run (history_answered 0 r ∷ []) v))
          (sym (select_stock-world s former latter ready)) (answered-IsStale r s latter f there)

    stale : IsStale s w
    stale = prices-IsStale s ts asked first
