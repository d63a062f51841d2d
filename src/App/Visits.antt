-- ===== src/App/Visits.antt =====
-- The page with its chart through a whole visit.
use stock_anomoly_detection.Prelude.{
  ℕ, ◌≡◌, sym, refl, ap, ◌∙◌, Bool, true, false, List, [], ◌∷◌, Option, none, some, if◌then◌else◌,
  if_cases, Bool-cases, inl, inr,
}
use stock_anomoly_detection.Text.{Text}
use stock_anomoly_detection.Chart.{Interval}
use stock_anomoly_detection.Chart.Ticks.Candles.{IsNow}
use stock_anomoly_detection.Chart.Display.{CandlestickSeries}
use stock_anomoly_detection.Chart.Display.First.{mounted}
use stock_anomoly_detection.Chart.Session.Steps as Steps
use stock_anomoly_detection.Chart.Session.Steps.{World}
use stock_anomoly_detection.Chart.Session.Live.Handlers.{on_price-IsShown}
use stock_anomoly_detection.Chart.Session.Calm as Calm
use stock_anomoly_detection.Chart.Session.Calm.{Phase, empty, live, IsEmpty, IsShowing, Promise}
use stock_anomoly_detection.Chart.Session.Calm.Empty.{on_price-IsBlank}
use stock_anomoly_detection.Chart.Session.Calm.Frame.{on_price-frame}
use stock_anomoly_detection.Chart.Session.Calm.Steps.{step-Promise, mounted-IsEmpty}
use stock_anomoly_detection.Dashboard.{Stock, Dashboard}
use stock_anomoly_detection.Dashboard.Events as Events
use stock_anomoly_detection.App.{
  App, Event, PageAnswer, on_page, on_page_synced, on_answer, on_chart, answer_page,
  synced_select_effects, synced_effects, loaded_changed, to_step, same_text, ticker_of, price_of,
  select_effects, price_effect, effects, step, run,
}
use stock_anomoly_detection.App.Linked.{IsLinked, run-IsLinked}

-- nothing is on its way that another choice would make late
abbrev pub IsQuiet : Phase → World → Type 0
IsQuiet empty w = w.histories ≡ []
IsQuiet (live i) w = w.more ≡ []

-- The candles are copied into the ref in the render of a choice, and from there to the next history,
-- only if there are none.
abbrev pub IsSynced : Phase → Bool → Option Text → World → Type 0
IsSynced p true o w = Calm.IsCalm p Steps.data_synced w
IsSynced p false o w = Calm.IsCalm p (Steps.select_stock_synced o) w

module _ {N : Type 0} (to_text : N → Text) (parse_float : Text → Option ℕ) where
  -- whether an event leaves the ticker of the selected stock
  abbrev pub stays : Events.Event N → App N → Bool
  stays e a =
      same_text (ticker_of a.page.selected_stock)
        (ticker_of (Events.step to_text e a.page).selected_stock)

  abbrev pub answer_stays : PageAnswer → App N → Bool
  answer_stays e a =
      same_text (ticker_of a.page.selected_stock) (ticker_of (answer_page e a.page).selected_stock)

  abbrev pub next : Phase → Event N → App N → Phase
  next p (on_page e now) a = if stays e a then p else empty
  next p (on_page_synced e now) a = if stays e a then p else empty
  next p (on_answer e now) a = if answer_stays e a then p else empty
  next p (on_chart e) a = Calm.next p (to_step e) a.chart.chart.interval
  next p (loaded_changed now) a = p

  -- Prices come at a clock's time, and another stock is selected while nothing is on its way.
  abbrev pub IsCalm : Phase → Event N → App N → Type 0
  IsCalm p (on_page e now) a = IsNow now × (stays e a ≡ false → IsQuiet p a.chart)
  IsCalm p (on_page_synced e now) a =
      IsNow now
      × IsSynced p (stays e a) (ticker_of (Events.step to_text e a.page).selected_stock) a.chart
  IsCalm p (on_answer e now) a = IsNow now × (answer_stays e a ≡ false → IsQuiet p a.chart)
  IsCalm p (on_chart e) a = Calm.IsCalm p (to_step e) a.chart
  IsCalm p (loaded_changed now) a = IsNow now

  unfoldable pub AreCalm : Phase → List (Event N) → App N → Type 0
  AreCalm p [] a = Unit
  AreCalm p (e ∷ es) a = IsCalm p e a × AreCalm (next p e a) es (step to_text parse_float e a)

  unfoldable pub last_phase : Phase → List (Event N) → App N → Phase
  last_phase p [] a = p
  last_phase p (e ∷ es) a = last_phase (next p e a) es (step to_text parse_float e a)

  module _ (api : CandlestickSeries) (start : api.Series) where
    price_effect-Promise :
        (p : Phase) (o : Option Stock) (loaded : Bool) (now : ℕ) (w : World)
        → IsNow now
        → Promise api start p w
        → Promise api start p
            (record w { chart = price_effect to_text parse_float o loaded now w.chart })
    unfolding price_effect
    price_effect-Promise p none loaded now w n h = h
    price_effect-Promise empty (some s) loaded now w n h =
        let c = record w.chart { is_history_loaded = loaded } in
        record {
          chart = on_price-IsBlank api start (parse_float s.price) now c h.chart;
          no_more = h.no_more;
          one_history = h.one_history;
          asked = λ k. ap (λ f. f.0) (on_price-frame (parse_float s.price) now c) ∙ h.asked k;
        }
    price_effect-Promise (live i) (some s) loaded now w n h =
        let c = record w.chart { is_history_loaded = loaded } in
        let f = on_price-frame (parse_float s.price) now c in
        record {
          series = record {
            chart = on_price-IsShown api i start (parse_float s.price) now c n h.series.chart;
            asked = h.series.asked;
          };
          there = ap (λ g. g.0) f ∙ h.there;
          chosen = ap (λ g. g.1) f ∙ h.chosen;
          no_histories = h.no_histories;
        }

    select_stock-Promise :
        (p : Phase) (o : Option Text) (w : World)
        → IsQuiet p w
        → Promise api start p w
        → IsEmpty api start (Steps.step (Steps.select_stock o) w)
    select_stock-Promise empty o w q h = step-Promise api start empty (Steps.select_stock o) w q h
    select_stock-Promise (live i) o w q h =
        step-Promise api start (live i) (Steps.select_stock o) w q h

    select_effects-Promise :
        (p : Phase) (old new : Option Stock) (w : World)
        → (same_text (ticker_of old) (ticker_of new) ≡ false → IsQuiet p w)
        → Promise api start p w
        → Promise api start
            (if same_text (ticker_of old) (ticker_of new) then p else empty)
            (select_effects old new w)
    unfolding select_effects
    select_effects-Promise p old new w q h =
        elim (Bool-cases (same_text (ticker_of old) (ticker_of new))) [
          | inl same ↦ rw same h
          | inr other ↦ rw other (select_stock-Promise p (ticker_of new) w (q other) h)
        ]

    effects-Promise :
        (p : Phase) (old new : Option Stock) (now : ℕ) (w : World)
        → IsNow now
        → (same_text (ticker_of old) (ticker_of new) ≡ false → IsQuiet p w)
        → Promise api start p w
        → Promise api start
            (if same_text (ticker_of old) (ticker_of new) then p else empty)
            (effects to_text parse_float old new now w)
    unfolding effects
    effects-Promise p old new now w n q h =
        let after = if same_text (ticker_of old) (ticker_of new) then p else empty in
        let moved = select_effects-Promise p old new w q h in
        if_cases (Promise api start after) (same_text (price_of old) (price_of new)) (λ _. moved)
          (λ _.
            price_effect-Promise after new w.chart.is_history_loaded now (select_effects old new w)
              n moved)

    synced_select_effects-Promise :
        (p : Phase) (old new : Option Stock) (b : Bool) (w : World)
        → same_text (ticker_of old) (ticker_of new) ≡ b
        → IsSynced p b (ticker_of new) w
        → Promise api start p w
        → Promise api start (if b then p else empty) (synced_select_effects old new w)
    unfolding synced_select_effects
    synced_select_effects-Promise empty old new true w e s h =
        rw e (step-Promise api start empty Steps.data_synced w s h)
    synced_select_effects-Promise (live i) old new true w e s h =
        rw e (step-Promise api start (live i) Steps.data_synced w s h)
    synced_select_effects-Promise empty old new false w e s h =
        rw e (step-Promise api start empty (Steps.select_stock_synced (ticker_of new)) w s h)
    synced_select_effects-Promise (live i) old new false w e s h =
        rw e (step-Promise api start (live i) (Steps.select_stock_synced (ticker_of new)) w s h)

    synced_effects-Promise :
        (p : Phase) (old new : Option Stock) (now : ℕ) (w : World)
        → IsNow now
        → IsSynced p (same_text (ticker_of old) (ticker_of new)) (ticker_of new) w
        → Promise api start p w
        → Promise api start
            (if same_text (ticker_of old) (ticker_of new) then p else empty)
            (synced_effects to_text parse_float old new now w)
    unfolding synced_effects
    synced_effects-Promise p old new now w n s h =
        let same = same_text (ticker_of old) (ticker_of new) in
        let after = if same then p else empty in
        let moved = synced_select_effects-Promise p old new same w refl s h in
        if_cases (Promise api start after) (same_text (price_of old) (price_of new)) (λ _. moved)
          (λ _.
            price_effect-Promise after new w.chart.is_history_loaded now
              (synced_select_effects old new w) n moved)

    step_calm :
        (p : Phase) (e : Event N) (a : App N)
        → IsCalm p e a
        → Promise api start p a.chart
        → Promise api start (next p e a) (step to_text parse_float e a).chart
    unfolding step
    step_calm p (on_page e now) a c h =
        effects-Promise p a.page.selected_stock (Events.step to_text e a.page).selected_stock now
          a.chart c.0 c.1 h
    step_calm p (on_page_synced e now) a c h =
        synced_effects-Promise p a.page.selected_stock (Events.step to_text e a.page).selected_stock
          now a.chart c.0 c.1 h
    step_calm p (on_answer e now) a c h =
        effects-Promise p a.page.selected_stock (answer_page e a.page).selected_stock now a.chart
          c.0 c.1 h
    step_calm p (on_chart e) a c h = step-Promise api start p (to_step e) a.chart c h
    step_calm p (loaded_changed now) a c h =
        price_effect-Promise p a.page.selected_stock a.chart.chart.is_history_loaded now a.chart c h

    run_calm :
        (p : Phase) (es : List (Event N)) (a : App N)
        → AreCalm p es a
        → Promise api start p a.chart
        → Promise api start (last_phase p es a) (run to_text parse_float es a).chart
    unfolding run AreCalm last_phase
    run_calm p [] a c h = h
    run_calm p (e ∷ es) a c h =
        run_calm (next p e a) es (step to_text parse_float e a) c.1 (step_calm p e a c.0 h)

    -- From a page without a selected stock and a freshly mounted chart, in any order of the events of
    -- both, where another stock or interval is chosen only while nothing is on its way, the chart is made
    -- ready while no history is on its way or shown, prices come at a clock's time, each history is in
    -- order and for the one request on its way, older pages are before their requests' candles, and the
    -- chart's candles are copied into the ref in the render of a choice, and from there to the next
    -- history, only if there are none: the chart works with the ticker selected on the page; from the
    -- answer of a history on to the next choice it shows exactly the candles of the state, a series in
    -- order of the chosen interval, and before and after a chart shows nothing.
    pub visit-IsLinked :
        (i : Interval) (page : Dashboard N) (es : List (Event N))
        → page.selected_stock ≡ none
        → AreCalm empty es (record { page = page; chart = mounted i })
        → (let a = run to_text parse_float es (record { page = page; chart = mounted i }) in
            IsLinked a
            × Promise api start
                (last_phase empty es (record { page = page; chart = mounted i }))
                a.chart)
    visit-IsLinked i page es e c =
        let a : App N = record { page = page; chart = mounted i } in
        (
          run-IsLinked to_text parse_float es a (sym (ap ticker_of e)),
          run_calm empty es a c (mounted-IsEmpty api start i),
        )
