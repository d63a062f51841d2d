-- ===== src/Tests/Visits.antt =====
-- A visit with two choices of an interval, at concrete inputs.
use stock_anomoly_detection.Prelude.{◌≢◌, refl, List, [], ◌∷◌, some, arith}
use stock_anomoly_detection.Text.{codes}
use stock_anomoly_detection.Chart.{OhlcvPoint, minute, day}
use stock_anomoly_detection.Chart.Series.{flat}
use stock_anomoly_detection.Chart.Ticks.Outcome.{IsSeries}
use stock_anomoly_detection.Chart.Display.First.{mounted}
use stock_anomoly_detection.Chart.Session.{
  ok, failed, push, push_all, clean_up, sync_interval, initialize_chart, show_data, sync_ohlcv_data,
  sync_is_history_loaded, load_more, start_loading,
}
use stock_anomoly_detection.Chart.Session.Handlers.{
  HistoryRequest, load_history, on_history, fit, apply_all, on_price, on_range, on_visible_range,
  near_start, on_more, add_older,
}
use stock_anomoly_detection.Chart.Session.Steps.{
  Event, select_stock, set_interval, chart_ready, data_synced, loaded_synced, history_answered,
  priced, rebuild, reload, run_history, answer_history, answer_more, scroll, scrolled,
  more_answered, step, run,
}
use stock_anomoly_detection.Chart.Session.Calm.{empty, AreCalm, last_phase, Promise}
use stock_anomoly_detection.Chart.Session.Calm.Steps.{visit-Promise}
use stock_anomoly_detection.Prelude.Int.{◌+ℤ◌, ◌-ℤ◌}
use stock_anomoly_detection.Tests.Charts.{start_of_chart}
use stock_anomoly_detection.Tests.Sessions.{page, page-IsPage}
use stock_anomoly_detection.Keyed.{sort_by, map_set_all}
use stock_anomoly_detection.Chart.Paging.{merge_older}
use stock_anomoly_detection.Tests.Displays.{list_series}
use stock_anomoly_detection.Tests.Series.{two_candles, two_candles-IsSeries, instant-IsNow}

abbrev first_day : List OhlcvPoint
first_day = flat 1767195000 10 ∷ []

first_day-IsSeries : IsSeries day first_day
first_day-IsSeries = record {
  ascending = (tt, tt);
  in_seconds = (ground arith, tt);
  candles = (omega arith, tt);
}

abbrev visit : List Event
visit =
    select_stock (some (codes "005930"))
    ∷ chart_ready
    ∷ history_answered 0 (ok two_candles)
    ∷ data_synced
    ∷ loaded_synced
    ∷ scrolled (some start_of_chart)
    ∷ priced (some 9) 1767195065000
    ∷ more_answered (ok page)
    ∷ set_interval day
    ∷ history_answered 0 failed
    ∷ select_stock (some (codes "000660"))
    ∷ history_answered 0 (ok first_day)
    ∷ []

one_ne_nil : (q : HistoryRequest) → (q ∷ []) ≢ []
one_ne_nil q = ground arith

visit-AreCalm : AreCalm empty visit (mounted minute)
unfolding AreCalm run step reload rebuild run_history answer_history load_history on_history fit
    apply_all push push_all clean_up sync_interval initialize_chart show_data sync_ohlcv_data
    sync_is_history_loaded on_price scroll on_visible_range on_range near_start load_more
    start_loading ◌+ℤ◌ ◌-ℤ◌ answer_more on_more add_older merge_older sort_by map_set_all
visit-AreCalm = (
  refl,
  (
    refl,
    (
      (one_ne_nil _, two_candles-IsSeries),
      (
        tt,
        (
          tt,
          (
            tt,
            (
              instant-IsNow,
              (
                page-IsPage,
                (refl, ((one_ne_nil _, tt), (refl, ((one_ne_nil _, first_day-IsSeries), tt)))),
              ),
            ),
          ),
        ),
      ),
    ),
  ),
)

visit-Promise_example :
    Promise list_series [] (last_phase empty visit (mounted minute)) (run visit (mounted minute))
visit-Promise_example = visit-Promise list_series [] minute visit visit-AreCalm
