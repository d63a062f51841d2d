-- ===== src/Chart/Session/Usable.antt =====
-- Every handler keeps the chart usable, so every order of events does.
use stock_anomoly_detection.Prelude.{
  ℕ, refl, Bool, ◌||◌, not, List, [], ◌∷◌, Option, none, some, length, ltb, ◌==◌, Bool-cases,
  if_cases, inl, inr,
}
use stock_anomoly_detection.Text.{Text}
use stock_anomoly_detection.Chart.{OhlcvPoint, Interval}
use stock_anomoly_detection.Chart.Paging.{merge_older}
use stock_anomoly_detection.Chart.Session.{
  PriceChart, sync_ohlcv_data, sync_interval, sync_is_history_loaded, clean_up, initialize_chart,
  show_data, on_crosshair_move, MoreRequest, start_loading, load_more, Response, failed, not_ok, ok,
}
use stock_anomoly_detection.Chart.Session.Handlers.{
  LogicalRange, near_start, on_range, on_visible_range, on_more, add_older, on_history,
  pending_ticks, apply_all, fit, on_price,
}
use stock_anomoly_detection.Chart.Session.Steps.{
  select_stock_synced, set_interval_synced, World, Event, select_stock, set_interval, chart_ready,
  data_synced, loaded_synced, scrolled, more_answered, history_answered, priced, crosshair_moved,
  is_some, answered, rebuild, reload, scroll, answer_more, run_history, answer_history, step, run,
}
use stock_anomoly_detection.Chart.Session.Calls.{IsUsable}
use stock_anomoly_detection.Chart.Session.Safety.{
  show_data-IsUsable, apply_all-IsUsable, fit-IsUsable, same-IsUsable, clean_up-IsUsable,
  clean_up-api, initialize_chart-IsUsable, load_history-IsUsable,
}

-- the answers and prices keep the chart usable
on_history-IsUsable : (r : Response) (s : PriceChart) → IsUsable s → IsUsable (on_history r s)
unfolding on_history
on_history-IsUsable failed s u = same-IsUsable s _ refl refl refl refl u
on_history-IsUsable not_ok s u = same-IsUsable s _ refl refl refl refl u
on_history-IsUsable (ok h) s u =
    let shown = show_data h (record s { ohlcv_data = h }) in
    let fitted = fit shown in
    same-IsUsable (apply_all (pending_ticks h fitted.tick_buffer) fitted) _ refl refl refl refl (
      apply_all-IsUsable (pending_ticks h fitted.tick_buffer) fitted (
        fit-IsUsable shown (
          show_data-IsUsable h (record s { ohlcv_data = h })
            (same-IsUsable s _ refl refl refl refl u))))

on_price-IsUsable : (p : Option ℕ) (t : ℕ) (s : PriceChart) → IsUsable s → IsUsable (on_price p t s)
unfolding on_price
on_price-IsUsable none t s u = u
on_price-IsUsable (some p) t s u =
    if_cases IsUsable (p == 0) (λ _. u)
      λ _.
        if_cases IsUsable (not s.is_history_loaded) (λ _. same-IsUsable s _ refl refl refl refl u)
          (λ _. apply_all-IsUsable (record { price = p; timestamp = t } ∷ []) s u)

on_more-IsUsable :
    (q : MoreRequest) (r : Response) (s : PriceChart) → IsUsable s → IsUsable (on_more q r s)
unfolding on_more add_older
on_more-IsUsable q failed s u = same-IsUsable s _ refl refl refl refl u
on_more-IsUsable q not_ok s u = same-IsUsable s _ refl refl refl refl u
on_more-IsUsable q (ok []) s u = same-IsUsable s _ refl refl refl refl u
on_more-IsUsable q (ok (m ∷ more)) s u =
    let merged = merge_older (m ∷ more) q.current_data in
    let after = add_older q.current_data (m ∷ more) s in
    same-IsUsable after _ refl refl refl refl (
      if_cases IsUsable (ltb (length q.current_data) (length merged))
        (λ _.
          show_data-IsUsable merged (record s { ohlcv_data = merged })
            (same-IsUsable s _ refl refl refl refl u))
        (λ _. same-IsUsable s _ refl refl refl refl u))

start_loading-IsUsable :
    (t : Text) (i : Interval) (s : PriceChart) (m : List OhlcvPoint)
    → IsUsable s
    → IsUsable (start_loading t i s m).0
unfolding start_loading
start_loading-IsUsable t i s [] u = u
start_loading-IsUsable t i s (p ∷ ps) u =
    if_cases (λ (r : PriceChart × Option MoreRequest). IsUsable r.0)
      (s.is_fetching_ref || not s.is_history_loaded_ref) (λ _. u)
      (λ _. same-IsUsable s _ refl refl refl refl u)

scroll-IsUsable :
    (o : Option Text) (r : Option LogicalRange) (w : World)
    → IsUsable w.chart
    → IsUsable (scroll o r w).chart
unfolding scroll on_visible_range on_range load_more
scroll-IsUsable none r w u = u
scroll-IsUsable (some t) none w u = u
scroll-IsUsable (some t) (some r) w u =
    if_cases Kept (w.chart.is_fetching_ref || w.chart.no_more_data_ref) (λ _. u)
      λ _.
        if_cases Kept (length w.chart.ohlcv_data_ref == 0) (λ _. u)
          λ _.
            if_cases Kept (near_start r)
              (λ _. start_loading-IsUsable t w.chart.interval w.chart w.chart.ohlcv_data_ref u)
              (λ _. u)
  where
    Kept : PriceChart × Option MoreRequest → Type 0
    Kept r = IsUsable r.0

rebuild-IsUsable :
    (o : Option Text) (ready : Bool) (s : PriceChart) → IsUsable s → IsUsable (rebuild o ready s).0
unfolding rebuild sync_interval
rebuild-IsUsable o ready s u =
    let cleaned = clean_up s in
    let synced = sync_interval cleaned in
    load_history-IsUsable o ready (initialize_chart (is_some o) synced) (
      initialize_chart-IsUsable (is_some o) synced (clean_up-api s)
        (same-IsUsable cleaned synced refl refl refl refl (clean_up-IsUsable s u)))

answer_more-IsUsable :
    (r : Response) (more : List MoreRequest) (w : World)
    → IsUsable w.chart
    → IsUsable (answer_more r more w).chart
unfolding answer_more
answer_more-IsUsable r [] w u = u
answer_more-IsUsable r (q ∷ rest) w u = on_more-IsUsable q r w.chart u

answer_history-IsUsable :
    (n : ℕ) (r : Response) (w : World) → IsUsable w.chart → IsUsable (answer_history n r w).chart
unfolding answer_history
answer_history-IsUsable n r w u = elim (Bool-cases (answered n w.histories)) [
  | inl there ↦ rw (there, answer_history) (on_history-IsUsable r w.chart u)
  | inr gone ↦ rw (gone, answer_history) u
]

step-IsUsable : (e : Event) (w : World) → IsUsable w.chart → IsUsable (step e w).chart
unfolding step reload run_history sync_ohlcv_data sync_is_history_loaded on_crosshair_move
step-IsUsable (select_stock o) w u = rebuild-IsUsable o w.chart.is_chart_ready w.chart u
step-IsUsable (set_interval i) w u =
    rebuild-IsUsable w.selected w.chart.is_chart_ready (record w.chart { interval = i })
      (same-IsUsable w.chart _ refl refl refl refl u)
step-IsUsable (select_stock_synced o) w u =
    same-IsUsable (rebuild o w.chart.is_chart_ready w.chart).0 _ refl refl refl refl
      (rebuild-IsUsable o w.chart.is_chart_ready w.chart u)
step-IsUsable (set_interval_synced i) w u =
    let chosen = record w.chart { interval = i } in
    same-IsUsable (rebuild w.selected w.chart.is_chart_ready chosen).0 _ refl refl refl refl (
      rebuild-IsUsable w.selected w.chart.is_chart_ready chosen
        (same-IsUsable w.chart _ refl refl refl refl u))
step-IsUsable chart_ready w u = load_history-IsUsable w.selected w.chart.is_chart_ready w.chart u
step-IsUsable data_synced w u = same-IsUsable w.chart _ refl refl refl refl u
step-IsUsable loaded_synced w u = same-IsUsable w.chart _ refl refl refl refl u
step-IsUsable (scrolled r) w u = scroll-IsUsable w.selected r w u
step-IsUsable (more_answered r) w u = answer_more-IsUsable r w.more w u
step-IsUsable (history_answered n r) w u = answer_history-IsUsable n r w u
step-IsUsable (priced p t) w u = on_price-IsUsable p t w.chart u
step-IsUsable (crosshair_moved f) w u = same-IsUsable w.chart _ refl refl refl refl u

-- In any order of events a chart is only created where none is, and all other calls of the chart
-- library are made on the chart that is there: never on one that has been removed.
pub run-IsUsable : (es : List Event) (w : World) → IsUsable w.chart → IsUsable (run es w).chart
unfolding run
run-IsUsable [] w u = u
run-IsUsable (e ∷ es) w u = run-IsUsable es (step e w) (step-IsUsable e w u)
