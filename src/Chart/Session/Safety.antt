-- ===== src/Chart/Session/Safety.antt =====
-- The chart library is only called on a chart that is there.
use stock_anomoly_detection.Prelude.{
  ◌≡◌, refl, Bool, true, false, ◌||◌, not, List, [], ◌∷◌, ◌++◌, Option, none, some, length, arith,
  ◌==◌, if◌then◌else◌, Bool-cases, if_cases, ap, inl, inr, sym, ◌∙◌,
}
use stock_anomoly_detection.Text.{Text}
use stock_anomoly_detection.Chart.{OhlcvPoint}
use stock_anomoly_detection.Chart.Series.{
  ChartCall, set_candles, set_volumes, fit_content, update_chart_data,
}
use stock_anomoly_detection.Chart.Ticks.{PendingTick, apply_ticks}
use stock_anomoly_detection.Chart.Session.{
  PriceChart, clean_up, initialize_chart, push, push_all, show_data,
}
use stock_anomoly_detection.Chart.Session.Handlers.{
  HistoryRequest, load_history, clear_series, apply_all, fit,
}
use stock_anomoly_detection.Chart.Session.Calls.{
  alive, IsUsable, push-IsUsable, apply_ticks-IsShowing, Showing, update_chart_data-IsShowing,
}

-- a chart without its series is told nothing
data-IsUsable :
    (cs : List ChartCall) (s : PriceChart)
    → Showing cs
    → (s.candle_series ≡ false → cs ≡ [])
    → IsUsable s
    → IsUsable (push cs s)
unfolding push push_all
data-IsUsable cs s h quiet u = elim (Bool-cases s.candle_series) [
  | inl there ↦ push-IsUsable cs s (sym u.candles ∙ there) h u
  | inr gone ↦ rw (quiet gone) u
]

pub show_data-IsUsable :
    (m : List OhlcvPoint) (s : PriceChart) → IsUsable s → IsUsable (show_data m s)
unfolding show_data update_chart_data
show_data-IsUsable m s u =
    data-IsUsable (update_chart_data s.candle_series s.volume_series s.interval_ref m) s
      (update_chart_data-IsShowing s.candle_series s.volume_series s.interval_ref m)
      (λ gone. ground arith) u

pub apply_all-IsUsable :
    (ts : List PendingTick) (s : PriceChart) → IsUsable s → IsUsable (apply_all ts s)
unfolding apply_all
apply_all-IsUsable ts s u =
    let after = apply_ticks s.interval_ref ts s.ohlcv_data in
    if_cases IsUsable (not s.candle_series || length s.ohlcv_data_ref == 0) (λ quiet. u)
      λ live.
        push-IsUsable after.1 (record s { ohlcv_data = after.0 })
          (let there : s.candle_series ≡ true = ground arith in sym u.candles ∙ there)
          (apply_ticks-IsShowing s.interval_ref ts s.ohlcv_data)
          (record { api = u.api; candles = u.candles; volumes = u.volumes; safe = u.safe })

pub fit-IsUsable : (s : PriceChart) → IsUsable s → IsUsable (fit s)
unfolding fit
fit-IsUsable s u =
    if_cases IsUsable s.chart_api
      (λ there. push-IsUsable (fit_content ∷ []) s (sym u.api ∙ there) (λ log. (refl, refl), tt) u)
      (λ gone. u)

-- a state with the same refs and calls
pub same-IsUsable :
    (s t : PriceChart)
    → t.chart_api ≡ s.chart_api
    → t.candle_series ≡ s.candle_series
    → t.volume_series ≡ s.volume_series
    → t.calls ≡ s.calls
    → IsUsable s
    → IsUsable t
same-IsUsable s t a b c d u = record {
  api = a ∙ (u.api ∙ ap alive (sym d));
  candles = b ∙ (u.candles ∙ ap alive (sym d));
  volumes = c ∙ (u.volumes ∙ ap alive (sym d));
  safe = rw d u.safe;
}

pub clean_up-IsUsable : (s : PriceChart) → IsUsable s → IsUsable (clean_up s)
unfolding clean_up push push_all
clean_up-IsUsable s u =
    if_cases IsUsable s.chart_api
      (λ there. record {
        api = refl;
        candles = refl;
        volumes = refl;
        safe = (sym u.api ∙ there, u.safe);
      })
      (λ gone. u)

pub clean_up-api : (s : PriceChart) → (clean_up s).chart_api ≡ false
unfolding clean_up push
clean_up-api s = ground arith

pub initialize_chart-IsUsable :
    (b : Bool) (s : PriceChart) → s.chart_api ≡ false → IsUsable s → IsUsable (initialize_chart b s)
unfolding initialize_chart push push_all
initialize_chart-IsUsable true s none_there u = record {
  api = refl;
  candles = refl;
  volumes = refl;
  safe = (sym u.api ∙ none_there, u.safe);
}
initialize_chart-IsUsable false s none_there u = u

pub load_history-IsUsable :
    (o : Option Text) (ready : Bool) (s : PriceChart)
    → IsUsable s
    → IsUsable (load_history o ready s).0
unfolding load_history clear_series
load_history-IsUsable none ready s u =
    data-IsUsable _ (record s { is_history_loaded = false; ohlcv_data = [] })
      (cleared s.candle_series s.volume_series)
      (λ gone.
        let off : s.volume_series ≡ false = u.volumes ∙ (sym u.candles ∙ gone) in ground arith)
      (record { api = u.api; candles = u.candles; volumes = u.volumes; safe = u.safe })
  where
    cleared :
        (a b : Bool)
        → Showing
            ((if a then set_candles [] ∷ [] else []) ++ (if b then set_volumes [] ∷ [] else []))
    cleared true true = (λ log. (refl, refl), (λ log. (refl, refl), tt))
    cleared true false = (λ log. (refl, refl), tt)
    cleared false true = (λ log. (refl, refl), tt)
    cleared false false = tt
load_history-IsUsable (some t) ready s u =
    if_cases (λ (r : PriceChart × Option HistoryRequest). IsUsable r.0) (not ready) (λ _. u)
      (λ _. record { api = u.api; candles = u.candles; volumes = u.volumes; safe = u.safe })
