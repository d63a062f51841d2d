-- ===== src/App.antt =====
-- The page and its chart together: web-app/app/page.tsx hands its selected stock to `PriceChart`,
-- whose effects run when the ticker, the price or the interval of that stock's chart has changed.
pub mod Linked
pub mod Prices
pub mod Visits
use stock_anomoly_detection.Prelude.{
  ℕ, ◌≡◌, Bool, true, false, not, ◌&&◌, List, [], ◌∷◌, Option, none, some, if◌then◌else◌,
}
use stock_anomoly_detection.Text.{Text, text_eq}
use stock_anomoly_detection.Dashboard.{Stock, Dashboard, Item, Answer, map_option}
use stock_anomoly_detection.Dashboard.Search.{
  on_subscriptions, on_found, on_subscribed, search_stocks, type_text, focus,
}
use stock_anomoly_detection.Dashboard.Events as Events
use stock_anomoly_detection.Chart.{Interval}
use stock_anomoly_detection.Chart.Session.{PriceChart, Legend, Response}
use stock_anomoly_detection.Chart.Session.Handlers.{LogicalRange, on_price}
use stock_anomoly_detection.Chart.Session.Steps as Steps
use stock_anomoly_detection.Chart.Session.Steps.{World}

pub record App (N : Type 0) : Type 0 where
  pub page : Dashboard N
  pub chart : World

-- What happens to the chart other than by its prop.
pub data ChartEvent : Type 0 where
  set_interval : Interval → ChartEvent
  set_interval_synced : Interval → ChartEvent
  chart_ready : ChartEvent
  data_synced : ChartEvent
  loaded_synced : ChartEvent
  scrolled : Option LogicalRange → ChartEvent
  more_answered : Response → ChartEvent
  history_answered : ℕ → Response → ChartEvent
  crosshair_moved : Option Legend → ChartEvent

abbrev pub to_step : ChartEvent → Steps.Event
to_step (set_interval i) = Steps.set_interval i
to_step (set_interval_synced i) = Steps.set_interval_synced i
to_step chart_ready = Steps.chart_ready
to_step data_synced = Steps.data_synced
to_step loaded_synced = Steps.loaded_synced
to_step (scrolled range) = Steps.scrolled range
to_step (more_answered r) = Steps.more_answered r
to_step (history_answered n r) = Steps.history_answered n r
to_step (crosshair_moved found) = Steps.crosshair_moved found

-- What else the page hears: the list of subscriptions, the search, an accepted subscription, and the
-- search box.
pub data PageAnswer : Type 0 where
  subscriptions_answered : Answer (List Item) → PageAnswer
  search_answered : Answer (List Item) → PageAnswer
  add_answered : Answer (Unit {0}) → PageAnswer
  too_short : Text → PageAnswer
  typed : Text → PageAnswer
  focused : PageAnswer

-- An event, with the clock at which its effects run. `loaded_changed` is the third effect's run after
-- a change of `isHistoryLoaded`, and `on_page_synced` an event in whose render `ohlcvData` has changed
-- too.
pub data Event (N : Type 0) : Type 0 where
  on_page : Events.Event N → ℕ → Event N
  on_page_synced : Events.Event N → ℕ → Event N
  on_answer : PageAnswer → ℕ → Event N
  on_chart : ChartEvent → Event N
  loaded_changed : ℕ → Event N

-- `a === b` for `selectedStock?.ticker` and `selectedStock?.price`, where undefined is none
abbrev pub same_text : Option Text → Option Text → Bool
same_text none none = true
same_text none (some b) = false
same_text (some a) none = false
same_text (some a) (some b) = text_eq a b

abbrev pub ticker_of : Option Stock → Option Text
ticker_of = map_option λ (s : Stock). s.ticker

abbrev pub price_of : Option Stock → Option Text
price_of = map_option λ (s : Stock). s.price

-- the first two effects, which run if the ticker has changed
unfoldable pub select_effects : Option Stock → Option Stock → World → World
select_effects old new w =
    if same_text (ticker_of old) (ticker_of new)
    then w
    else Steps.step (Steps.select_stock (ticker_of new)) w

-- with a changed `ohlcvData`: its effect runs in any case
unfoldable pub synced_select_effects : Option Stock → Option Stock → World → World
synced_select_effects old new w =
    if same_text (ticker_of old) (ticker_of new)
    then Steps.step Steps.data_synced w
    else Steps.step (Steps.select_stock_synced (ticker_of new)) w

unfoldable pub answer_page : {N : Type 0} → PageAnswer → Dashboard N → Dashboard N
answer_page (subscriptions_answered a) d = on_subscriptions a d
answer_page (search_answered a) d = on_found a d
answer_page (add_answered a) d = (on_subscribed a d).0
answer_page (too_short text) d = (search_stocks text d).0
answer_page (typed text) d = type_text text d
answer_page focused d = focus d

-- `parse_float` is `parseFloat`, none for NaN
module _ {N : Type 0} (to_text : N → Text) (parse_float : Text → Option ℕ) where
  -- the third effect, with `isHistoryLoaded` of its render
  unfoldable pub price_effect : Option Stock → Bool → ℕ → PriceChart → PriceChart
  price_effect none loaded now s = s
  price_effect (some stock) loaded now s =
      record (on_price (parse_float stock.price) now (record s { is_history_loaded = loaded })) {
        is_history_loaded = s.is_history_loaded;
      }

  unfoldable pub effects : Option Stock → Option Stock → ℕ → World → World
  effects old new now w =
      let moved = select_effects old new w in
      if same_text (price_of old) (price_of new)
      then moved
      else record moved { chart = price_effect new w.chart.is_history_loaded now moved.chart }

  unfoldable pub synced_effects : Option Stock → Option Stock → ℕ → World → World
  synced_effects old new now w =
      let moved = synced_select_effects old new w in
      if same_text (price_of old) (price_of new)
      then moved
      else record moved { chart = price_effect new w.chart.is_history_loaded now moved.chart }

  unfoldable pub step : Event N → App N → App N
  step (on_page e now) a =
      let page = Events.step to_text e a.page in
      record { page = page; chart = effects a.page.selected_stock page.selected_stock now a.chart }
  step (on_page_synced e now) a =
      let page = Events.step to_text e a.page in
      record {
        page = page;
        chart = synced_effects a.page.selected_stock page.selected_stock now a.chart;
      }
  step (on_answer e now) a =
      let page = answer_page e a.page in
      record { page = page; chart = effects a.page.selected_stock page.selected_stock now a.chart }
  step (on_chart e) a = record a { chart = Steps.step (to_step e) a.chart }
  step (loaded_changed now) a = record a {
    chart = record a.chart {
      chart = price_effect a.page.selected_stock a.chart.chart.is_history_loaded now a.chart.chart;
    };
  }

  unfoldable pub run : List (Event N) → App N → App N
  run [] a = a
  run (e ∷ es) a = run es (step e a)
