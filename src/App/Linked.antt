-- ===== src/App/Linked.antt =====
-- The chart always shows the stock that is selected on the page.
use stock_anomoly_detection.Prelude.{
  ℕ, ◌≡◌, refl, ap, ◌∙◌, true, List, [], ◌∷◌, Option, none, some, Bool-cases, inl, inr, arith,
  if_cases,
}
use stock_anomoly_detection.Text.{Text, text_eq_iff}
use stock_anomoly_detection.Dashboard.{Stock}
use stock_anomoly_detection.Dashboard.Events as Events
use stock_anomoly_detection.Chart.Session.{MoreRequest, Response}
use stock_anomoly_detection.Chart.Session.Handlers.{LogicalRange}
use stock_anomoly_detection.Chart.Session.Steps as Steps
use stock_anomoly_detection.Chart.Session.Steps.{World}
use stock_anomoly_detection.App.{
  App, ChartEvent, set_interval, set_interval_synced, chart_ready, data_synced, loaded_synced,
  scrolled, more_answered, history_answered, crosshair_moved, to_step, Event, on_page,
  on_page_synced, on_answer, on_chart, loaded_changed, same_text, ticker_of, price_of,
  select_effects, synced_select_effects, synced_effects, answer_page, effects, step, run,
}

abbrev pub IsLinked : {N : Type 0} → App N → Type 0
IsLinked a = a.chart.selected ≡ ticker_of a.page.selected_stock

pub same_text-eq : (a b : Option Text) → same_text a b ≡ true → a ≡ b
same_text-eq none none e = refl
same_text-eq none (some b) e = absurd (ground arith)
same_text-eq (some a) none e = absurd (ground arith)
same_text-eq (some a) (some b) e = ap some ((text_eq_iff a b).0 e)

answer_more-selected :
    (r : Response) (l : List MoreRequest) (w : World)
    → (Steps.answer_more r l w).selected ≡ w.selected
unfolding Steps.answer_more
answer_more-selected r [] w = refl
answer_more-selected r (q ∷ l) w = refl

scroll-selected :
    (o : Option Text) (r : Option LogicalRange) (w : World)
    → (Steps.scroll o r w).selected ≡ w.selected
unfolding Steps.scroll
scroll-selected none r w = refl
scroll-selected (some t) r w = refl

answer_history-selected :
    (n : ℕ) (r : Response) (w : World) → (Steps.answer_history n r w).selected ≡ w.selected
unfolding Steps.answer_history
answer_history-selected n r w = elim (Bool-cases (Steps.answered n w.histories)) [
  | inl there ↦ rw (there, Steps.answer_history) refl
  | inr gone ↦ rw (gone, Steps.answer_history) refl
]

chart_step-selected :
    (e : ChartEvent) (w : World) → (Steps.step (to_step e) w).selected ≡ w.selected
unfolding Steps.step Steps.reload Steps.run_history
chart_step-selected (set_interval i) w = refl
chart_step-selected (set_interval_synced i) w = refl
chart_step-selected chart_ready w = refl
chart_step-selected data_synced w = refl
chart_step-selected loaded_synced w = refl
chart_step-selected (scrolled r) w = scroll-selected w.selected r w
chart_step-selected (more_answered r) w = answer_more-selected r w.more w
chart_step-selected (history_answered n r) w = answer_history-selected n r w
chart_step-selected (crosshair_moved f) w = refl

select_effects-selected :
    (old new : Option Stock) (w : World)
    → w.selected ≡ ticker_of old
    → (select_effects old new w).selected ≡ ticker_of new
unfolding select_effects Steps.step Steps.reload
select_effects-selected old new w h =
    elim (Bool-cases (same_text (ticker_of old) (ticker_of new))) [
      | inl same ↦ rw same (h ∙ same_text-eq (ticker_of old) (ticker_of new) same)
      | inr other ↦ rw other refl
    ]

synced_select_effects-selected :
    (old new : Option Stock) (w : World)
    → w.selected ≡ ticker_of old
    → (synced_select_effects old new w).selected ≡ ticker_of new
unfolding synced_select_effects Steps.step Steps.reload
synced_select_effects-selected old new w h =
    elim (Bool-cases (same_text (ticker_of old) (ticker_of new))) [
      | inl same ↦ rw same (h ∙ same_text-eq (ticker_of old) (ticker_of new) same)
      | inr other ↦ rw other refl
    ]

module _ {N : Type 0} (to_text : N → Text) (parse_float : Text → Option ℕ) where
  effects-selected :
      (old new : Option Stock) (now : ℕ) (w : World)
      → w.selected ≡ ticker_of old
      → (effects to_text parse_float old new now w).selected ≡ ticker_of new
  unfolding effects
  effects-selected old new now w h =
      let moved = select_effects-selected old new w h in
      if_cases (λ (v : World). v.selected ≡ ticker_of new) (same_text (price_of old) (price_of new))
        (λ _. moved) (λ _. moved)

  synced_effects-selected :
      (old new : Option Stock) (now : ℕ) (w : World)
      → w.selected ≡ ticker_of old
      → (synced_effects to_text parse_float old new now w).selected ≡ ticker_of new
  unfolding synced_effects
  synced_effects-selected old new now w h =
      let moved = synced_select_effects-selected old new w h in
      if_cases (λ (v : World). v.selected ≡ ticker_of new) (same_text (price_of old) (price_of new))
        (λ _. moved) (λ _. moved)

  step-IsLinked : (e : Event N) (a : App N) → IsLinked a → IsLinked (step to_text parse_float e a)
  unfolding step
  step-IsLinked (on_page e now) a h =
      effects-selected a.page.selected_stock (Events.step to_text e a.page).selected_stock now
        a.chart h
  step-IsLinked (on_page_synced e now) a h =
      synced_effects-selected a.page.selected_stock (Events.step to_text e a.page).selected_stock
        now a.chart h
  step-IsLinked (on_answer e now) a h =
      effects-selected a.page.selected_stock (answer_page e a.page).selected_stock now a.chart h
  step-IsLinked (on_chart e) a h = chart_step-selected e a.chart ∙ h
  step-IsLinked (loaded_changed now) a h = h

  -- In any order of events of the page and of the chart, the ticker that the chart works with is that of
  -- the stock selected on the page, and none when none is, if it was so at first.
  pub run-IsLinked :
      (es : List (Event N)) (a : App N) → IsLinked a → IsLinked (run to_text parse_float es a)
  unfolding run
  run-IsLinked [] a h = h
  run-IsLinked (e ∷ es) a h = run-IsLinked es (step to_text parse_float e a) (step-IsLinked e a h)
