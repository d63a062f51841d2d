-- ===== src/Chart/Session/Calm/Frame.antt =====
-- What no handler of prices, scrolls and answers changes: whether a chart is there, the chosen interval,
-- and the histories on their way.
use stock_anomoly_detection.Prelude.{
  ℕ, ◌≡◌, refl, ◌∙◌, Bool, not, ◌||◌, ◌==◌, List, [], ◌∷◌, Option, none, some, length, ltb,
  if_cases,
}
use stock_anomoly_detection.Text.{Text}
use stock_anomoly_detection.Chart.{OhlcvPoint, Interval}
use stock_anomoly_detection.Chart.Ticks.{PendingTick}
use stock_anomoly_detection.Chart.Paging.{merge_older}
use stock_anomoly_detection.Chart.Session.{
  PriceChart, MoreRequest, push, show_data, Response, failed, not_ok, ok, start_loading, load_more,
}
use stock_anomoly_detection.Chart.Session.Handlers.{
  LogicalRange, near_start, on_range, on_visible_range, add_older, on_more, apply_all, fit,
  pending_ticks, on_history, on_price,
}
use stock_anomoly_detection.Chart.Session.Steps.{World, scroll, answer_more}

abbrev pub frame : PriceChart → Bool × Interval
frame c = (c.chart_api, c.interval)

apply_all-frame : (ts : List PendingTick) (c : PriceChart) → frame (apply_all ts c) ≡ frame c
unfolding apply_all push
apply_all-frame ts c =
    if_cases (λ d. frame d ≡ frame c) (not c.candle_series || length c.ohlcv_data_ref == 0)
      (λ _. refl) (λ _. refl)

fit-frame : (c : PriceChart) → frame (fit c) ≡ frame c
unfolding fit push
fit-frame c = if_cases (λ d. frame d ≡ frame c) c.chart_api (λ _. refl) (λ _. refl)

pub on_history-frame : (r : Response) (c : PriceChart) → frame (on_history r c) ≡ frame c
unfolding on_history show_data push
on_history-frame failed c = refl
on_history-frame not_ok c = refl
on_history-frame (ok history) c =
    let shown = show_data history (record c { ohlcv_data = history }) in
    apply_all-frame (pending_ticks history (fit shown).tick_buffer) (fit shown) ∙ fit-frame shown

pub on_price-frame : (p : Option ℕ) (t : ℕ) (c : PriceChart) → frame (on_price p t c) ≡ frame c
unfolding on_price
on_price-frame none t c = refl
on_price-frame (some p) t c =
    if_cases (λ d. frame d ≡ frame c) (p == 0) (λ _. refl)
      (λ _.
        if_cases (λ d. frame d ≡ frame c) (not c.is_history_loaded) (λ _. refl)
          (λ _. apply_all-frame (record { price = p; timestamp = t } ∷ []) c))

on_more-frame : (q : MoreRequest) (r : Response) (c : PriceChart) → frame (on_more q r c) ≡ frame c
unfolding on_more add_older show_data push
on_more-frame q failed c = refl
on_more-frame q not_ok c = refl
on_more-frame q (ok []) c = refl
on_more-frame q (ok (m ∷ more)) c =
    if_cases (λ d. frame d ≡ frame c)
      (ltb (length q.current_data) (length (merge_older (m ∷ more) q.current_data))) (λ _. refl)
      (λ _. refl)

on_range-frame :
    (t : Text) (i : Interval) (r : LogicalRange) (c : PriceChart)
    → frame (on_range t i r c).0 ≡ frame c
unfolding on_range load_more
on_range-frame t i r c =
    if_cases Same (c.is_fetching_ref || c.no_more_data_ref) (λ _. refl)
      (λ _.
        if_cases Same (length c.ohlcv_data_ref == 0) (λ _. refl)
          (λ _. if_cases Same (near_start r) (λ _. started c.ohlcv_data_ref) (λ _. refl)))
  where
    Same : PriceChart × Option MoreRequest → Type 0
    Same a = frame a.0 ≡ frame c

    started : (l : List OhlcvPoint) → Same (start_loading t i c l)
    started [] = unfold start_loading in refl
    started (p ∷ l) =
        unfold start_loading in
        if_cases Same (c.is_fetching_ref || not c.is_history_loaded_ref) (λ _. refl) (λ _. refl)

abbrev pub SameFrame : World → World → Type 0
SameFrame v w = (frame v.chart ≡ frame w.chart) × (v.histories ≡ w.histories)

pub scroll-frame :
    (o : Option Text) (r : Option LogicalRange) (w : World) → SameFrame (scroll o r w) w
unfolding scroll on_visible_range
scroll-frame none r w = (refl, refl)
scroll-frame (some t) none w = (refl, refl)
scroll-frame (some t) (some r) w = (on_range-frame t w.chart.interval r w.chart, refl)

pub answer_more-frame :
    (r : Response) (l : List MoreRequest) (w : World) → SameFrame (answer_more r l w) w
unfolding answer_more
answer_more-frame r [] w = (refl, refl)
answer_more-frame r (q ∷ l) w = (on_more-frame q r w.chart, refl)
