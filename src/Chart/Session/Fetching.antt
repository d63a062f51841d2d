-- ===== src/Chart/Session/Fetching.antt =====
-- At most one request for older candles is on its way.
use stock_anomoly_detection.Prelude.{
  ℕ, ◌≤◌, ◌≡◌, refl, Bool, true, false, List, [], ◌∷◌, Option, none, some, length, length-append,
  arith, Bool-cases, inl, inr, ◌∙◌,
}
use stock_anomoly_detection.Text.{Text}
use stock_anomoly_detection.Chart.{OhlcvPoint, Interval}
use stock_anomoly_detection.Chart.Ticks.{PendingTick}
use stock_anomoly_detection.Chart.Session.{
  PriceChart, sync_ohlcv_data, sync_interval, sync_is_history_loaded, clean_up, initialize_chart,
  push, show_data, on_crosshair_move, MoreRequest, start_loading, load_more, Response, failed,
  not_ok, ok,
}
use stock_anomoly_detection.Chart.Session.Handlers.{
  LogicalRange, on_range, on_visible_range, on_more, load_history, clear_series, on_history,
  pending_ticks, apply_all, fit, on_price,
}
use stock_anomoly_detection.Chart.Session.Steps.{
  select_stock_synced, set_interval_synced, World, Event, select_stock, set_interval, chart_ready,
  data_synced, loaded_synced, scrolled, more_answered, history_answered, priced, crosshair_moved,
  also, answered, rebuild, reload, scroll, answer_more, run_history, answer_history, step, run,
}

abbrev pub pending : Bool → ℕ
pending true = 1
pending false = 0

-- `isFetchingRef` counts the requests for older candles that are not answered.
abbrev pub IsCounted : World → Type 0
IsCounted w = length w.more ≡ pending w.chart.is_fetching_ref

abbrev MoreList : Type 0
MoreList = List MoreRequest

abbrev SameFlag : PriceChart → PriceChart → Type 0
SameFlag s t = t.is_fetching_ref ≡ s.is_fetching_ref

apply_all-flag : (ts : List PendingTick) (s : PriceChart) → SameFlag s (apply_all ts s)
unfolding apply_all push
apply_all-flag ts s = ground arith

rebuild-flag : (o : Option Text) (ready : Bool) (s : PriceChart) → SameFlag s (rebuild o ready s).0
unfolding rebuild load_history clear_series initialize_chart sync_interval clean_up push
rebuild-flag none ready s = ground arith
rebuild-flag (some t) ready s = ground arith

load_history-flag :
    (o : Option Text) (ready : Bool) (s : PriceChart) → SameFlag s (load_history o ready s).0
unfolding load_history clear_series push
load_history-flag none ready s = refl
load_history-flag (some t) ready s = ground arith

fit-flag : (s : PriceChart) → SameFlag s (fit s)
unfolding fit push
fit-flag s = ground arith

on_history-flag : (r : Response) (s : PriceChart) → SameFlag s (on_history r s)
unfolding on_history fit show_data push
on_history-flag failed s = refl
on_history-flag not_ok s = refl
on_history-flag (ok h) s =
    let shown = show_data h (record s { ohlcv_data = h }) in
    apply_all-flag (pending_ticks h (fit shown).tick_buffer) (fit shown) ∙ fit-flag shown

on_price-flag : (p : Option ℕ) (t : ℕ) (s : PriceChart) → SameFlag s (on_price p t s)
unfolding on_price
on_price-flag none t s = refl
on_price-flag (some p) t s =
    ground (arith, apply_all-flag (record { price = p; timestamp = t } ∷ []) s)

on_more-flag :
    (q : MoreRequest) (r : Response) (s : PriceChart) → (on_more q r s).is_fetching_ref ≡ false
unfolding on_more
on_more-flag q failed s = refl
on_more-flag q not_ok s = refl
on_more-flag q (ok m) s = refl

abbrev IsRequest : MoreList → PriceChart × Option MoreRequest → Type 0
IsRequest more r = length (also more r.1) ≡ pending r.0.is_fetching_ref

start_loading-IsRequest :
    (t : Text) (i : Interval) (s : PriceChart) (points : List OhlcvPoint) (more : MoreList)
    → length more ≡ pending s.is_fetching_ref
    → IsRequest more (start_loading t i s points)
unfolding start_loading
start_loading-IsRequest t i s [] more h = h
start_loading-IsRequest t i s (p ∷ ps) more h = elim (Bool-cases s.is_fetching_ref) [
  | inl busy ↦ rw busy (rw busy at h)
  | inr free ↦ rw free (elim (Bool-cases s.is_history_loaded_ref) [
    | inl loaded ↦
        rw loaded (let none_yet = rw free at h in omega (arith, length-append {0} more _))
    | inr not_yet ↦ rw not_yet (rw free at h)
  ])
]

on_range-IsRequest :
    (t : Text) (i : Interval) (r : LogicalRange) (s : PriceChart) (more : MoreList)
    → length more ≡ pending s.is_fetching_ref
    → IsRequest more (on_range t i r s)
unfolding on_range load_more
on_range-IsRequest t i r s more h =
    ground (arith, start_loading-IsRequest t i s s.ohlcv_data_ref more h)

scroll-IsCounted :
    (o : Option Text) (r : Option LogicalRange) (w : World) → IsCounted w → IsCounted (scroll o r w)
unfolding scroll on_visible_range
scroll-IsCounted none r w h = h
scroll-IsCounted (some t) none w h = h
scroll-IsCounted (some t) (some r) w h = on_range-IsRequest t w.chart.interval r w.chart w.more h

answer_more-IsCounted :
    (r : Response) (more : MoreList) (w : World)
    → w.more ≡ more
    → IsCounted w
    → IsCounted (answer_more r more w)
unfolding answer_more
answer_more-IsCounted r [] w e h = h
answer_more-IsCounted r (q ∷ rest) w e h =
    rw (on_more-flag q r w.chart) (one w.chart.is_fetching_ref (rw e at h))
  where
    one : (b : Bool) → length (q ∷ rest) ≡ pending b → length rest ≡ 0
    one true k = omega arith
    one false k = absurd (omega arith)

answer_history-IsCounted :
    (n : ℕ) (r : Response) (w : World) → IsCounted w → IsCounted (answer_history n r w)
unfolding answer_history
answer_history-IsCounted n r w h = elim (Bool-cases (answered n w.histories)) [
  | inl there ↦ rw (there, answer_history) (rw (on_history-flag r w.chart) h)
  | inr gone ↦ rw (gone, answer_history) h
]

step-IsCounted : (e : Event) (w : World) → IsCounted w → IsCounted (step e w)
unfolding step reload run_history sync_ohlcv_data sync_is_history_loaded on_crosshair_move
step-IsCounted (select_stock o) w h = rw (rebuild-flag o w.chart.is_chart_ready w.chart) h
step-IsCounted (set_interval i) w h =
    rw (rebuild-flag w.selected w.chart.is_chart_ready (record w.chart { interval = i })) h
step-IsCounted (select_stock_synced o) w h = rw (rebuild-flag o w.chart.is_chart_ready w.chart) h
step-IsCounted (set_interval_synced i) w h =
    rw (rebuild-flag w.selected w.chart.is_chart_ready (record w.chart { interval = i })) h
step-IsCounted chart_ready w h = rw (load_history-flag w.selected w.chart.is_chart_ready w.chart) h
step-IsCounted data_synced w h = h
step-IsCounted loaded_synced w h = h
step-IsCounted (scrolled r) w h = scroll-IsCounted w.selected r w h
step-IsCounted (more_answered r) w h = answer_more-IsCounted r w.more w refl h
step-IsCounted (history_answered n r) w h = answer_history-IsCounted n r w h
step-IsCounted (priced p t) w h = rw (on_price-flag p t w.chart) h
step-IsCounted (crosshair_moved f) w h = h

-- In any order of events the flag `isFetchingRef` says exactly whether a request for older candles
-- is on its way, and there is never more than one.
pub run-IsCounted :
    (es : List Event) (w : World)
    → IsCounted w
    → IsCounted (run es w) × (length (run es w).more ≤ 1)
unfolding run
run-IsCounted [] w h = (h, at_most w.chart.is_fetching_ref h)
  where
    at_most : (b : Bool) {n : ℕ} → n ≡ pending b → n ≤ 1
    at_most true k = omega arith
    at_most false k = omega arith
run-IsCounted (e ∷ es) w h = run-IsCounted es (step e w) (step-IsCounted e w h)
