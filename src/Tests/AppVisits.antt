-- ===== src/Tests/AppVisits.antt =====
-- A visit of the page with its chart, at concrete inputs.
use stock_anomoly_detection.Prelude.{ℕ, ◌≢◌, refl, List, [], ◌∷◌, arith}
use stock_anomoly_detection.Text.{decimal, text_eq}
use stock_anomoly_detection.Chart.{minute}
use stock_anomoly_detection.Chart.Display.First.{mounted}
use stock_anomoly_detection.Chart.Session as Session
use stock_anomoly_detection.Chart.Session.{
  push, push_all, clean_up, sync_interval, initialize_chart, show_data, sync_ohlcv_data,
  sync_is_history_loaded,
}
use stock_anomoly_detection.Chart.Session.Handlers.{
  HistoryRequest, load_history, on_history, fit, apply_all, on_price,
}
use stock_anomoly_detection.Chart.Session.Steps as Steps
use stock_anomoly_detection.Chart.Session.Steps.{rebuild, reload, run_history, answer_history}
use stock_anomoly_detection.Chart.Session.Calm.{empty, Promise}
use stock_anomoly_detection.Dashboard.{listed, on_stock_tick, update_stock, updated, select_stock}
use stock_anomoly_detection.Dashboard.Events as Events
use stock_anomoly_detection.App.{
  App, Event, on_page, on_chart, loaded_changed, chart_ready, data_synced, loaded_synced,
  history_answered, select_effects, price_effect, effects, step, run,
}
use stock_anomoly_detection.App.Linked.{IsLinked}
use stock_anomoly_detection.App.Visits.{AreCalm, last_phase, visit-IsLinked}
use stock_anomoly_detection.Tests.Displays.{list_series}
use stock_anomoly_detection.Tests.Live.{parse_float}
use stock_anomoly_detection.Tests.Pages.{page, tick}
use stock_anomoly_detection.Tests.Series.{two_candles, two_candles-IsSeries, instant-IsNow}

abbrev start : App ℕ
start = record { page = page; chart = mounted minute }

abbrev visit : List (Event ℕ)
visit =
    on_page (Events.selected 0) 1767195065000
    ∷ on_chart chart_ready
    ∷ on_chart (history_answered 0 (Session.ok two_candles))
    ∷ on_chart data_synced
    ∷ on_chart loaded_synced
    ∷ loaded_changed 1767195065000
    ∷ on_page (Events.ticked tick) 1767195065000
    ∷ on_page (Events.selected 1) 1767195065000
    ∷ on_chart (history_answered 0 (Session.ok two_candles))
    ∷ []

one_ne_nil : (q : HistoryRequest) → (q ∷ []) ≢ []
one_ne_nil q = ground arith

visit-AreCalm : AreCalm decimal parse_float empty visit start
unfolding AreCalm step run effects select_effects price_effect Events.step Events.click Steps.step
    reload rebuild run_history answer_history load_history on_history fit apply_all push push_all
    clean_up sync_interval initialize_chart show_data sync_ohlcv_data sync_is_history_loaded
    on_price on_stock_tick update_stock text_eq listed decimal select_stock updated
visit-AreCalm = (
  (instant-IsNow, λ _. refl),
  (
    refl,
    (
      (one_ne_nil _, two_candles-IsSeries),
      (
        tt,
        (
          tt,
          (
            instant-IsNow,
            (
              (instant-IsNow, λ _. refl),
              ((instant-IsNow, λ _. refl), ((one_ne_nil _, two_candles-IsSeries), tt)),
            ),
          ),
        ),
      ),
    ),
  ),
)

visit-IsLinked_example :
    IsLinked (run decimal parse_float visit start)
    × Promise list_series []
        (last_phase decimal parse_float empty visit start)
        (run decimal parse_float visit start).chart
visit-IsLinked_example =
    visit-IsLinked decimal parse_float list_series [] minute page visit refl visit-AreCalm
