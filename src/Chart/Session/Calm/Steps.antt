-- ===== src/Chart/Session/Calm/Steps.antt =====
-- The promise of a calm visit, kept by every event.
use mathlib.Core.Path.{subst}
use stock_anomoly_detection.Prelude.{zero, suc, refl, sym, ap, ◌∙◌, List, [], ◌∷◌, arith}
use stock_anomoly_detection.Chart.{Interval}
use stock_anomoly_detection.Chart.Display.{CandlestickSeries}
use stock_anomoly_detection.Chart.Display.First.{mounted}
use stock_anomoly_detection.Chart.Session.{
  sync_ohlcv_data, sync_is_history_loaded, on_crosshair_move,
}
use stock_anomoly_detection.Chart.Session.Steps.{
  select_stock_synced, set_interval_synced, World, Event, select_stock, set_interval, chart_ready,
  data_synced, loaded_synced, scrolled, more_answered, history_answered, priced, crosshair_moved,
  reload, step, run,
}
use stock_anomoly_detection.Chart.Session.Calm.{
  Phase, empty, live, next, IsCalm, AreCalm, last_phase, IsEmpty, IsShowing, Promise,
}
use stock_anomoly_detection.Chart.Session.Calm.Empty.{on_price-IsBlank, scroll-nothing}
use stock_anomoly_detection.Chart.Session.Calm.Frame.{
  on_price-frame, scroll-frame, answer_more-frame,
}
use stock_anomoly_detection.Chart.Session.Calm.Kept.{
  reload-IsEmpty, run_history-IsEmpty, history-Promise, with_none-IsEmpty, blank-IsWhole,
  showing-IsWhole, current-IsShowing, rechosen-IsWhole, nothing_more,
}

module _ (api : CandlestickSeries) (start : api.Series) where
  empty-Promise :
      (e : Event) (w : World)
      → IsCalm empty e w
      → IsEmpty api start w
      → Promise api start (next empty e w.chart.interval) (step e w)
  unfolding step sync_ohlcv_data sync_is_history_loaded on_crosshair_move
  empty-Promise (select_stock o) w a h =
      reload-IsEmpty api start o w.chart.is_chart_ready w.chart w h.no_more a
        (blank-IsWhole api start w.chart h.chart)
  empty-Promise (set_interval j) w a h =
      reload-IsEmpty api start w.selected w.chart.is_chart_ready (record w.chart { interval = j }) w
        h.no_more a (rechosen-IsWhole j w.chart (blank-IsWhole api start w.chart h.chart))
  empty-Promise (select_stock_synced o) w a h =
      with_none-IsEmpty api start w.chart.ohlcv_data (reload o w.chart.is_chart_ready w.chart w) a.1
        (reload-IsEmpty api start o w.chart.is_chart_ready w.chart w h.no_more a.0
          (blank-IsWhole api start w.chart h.chart))
  empty-Promise (set_interval_synced j) w a h =
      with_none-IsEmpty api start w.chart.ohlcv_data
        (reload w.selected w.chart.is_chart_ready (record w.chart { interval = j }) w) a.1
        (reload-IsEmpty api start w.selected w.chart.is_chart_ready
          (record w.chart { interval = j }) w h.no_more a.0
          (rechosen-IsWhole j w.chart (blank-IsWhole api start w.chart h.chart)))
  empty-Promise chart_ready w a h = run_history-IsEmpty api start w h a
  empty-Promise data_synced w a h = with_none-IsEmpty api start w.chart.ohlcv_data w a h
  empty-Promise loaded_synced w a h = record {
    chart = h.chart;
    no_more = h.no_more;
    one_history = h.one_history;
    asked = h.asked;
  }
  empty-Promise (scrolled range) w a h =
      subst (IsEmpty api start) (sym (scroll-nothing w.selected range w h.chart.no_candles)) h
  empty-Promise (more_answered r) w a h =
      subst (IsEmpty api start) (sym (nothing_more api start r w h.no_more)) h
  empty-Promise (history_answered zero r) w a h = history-Promise api start r w h a.0 a.1
  empty-Promise (history_answered (suc n) r) w a h = absurd (a tt)
  empty-Promise (priced price timestamp) w a h = record {
    chart = on_price-IsBlank api start price timestamp w.chart h.chart;
    no_more = h.no_more;
    one_history = h.one_history;
    asked = λ n. ap (λ f. f.0) (on_price-frame price timestamp w.chart) ∙ h.asked n;
  }
  empty-Promise (crosshair_moved found) w a h = record {
    chart = h.chart;
    no_more = h.no_more;
    one_history = h.one_history;
    asked = h.asked;
  }

  live-Promise :
      (i : Interval) (e : Event) (w : World)
      → IsCalm (live i) e w
      → IsShowing api start i w
      → Promise api start (next (live i) e w.chart.interval) (step e w)
  unfolding step sync_ohlcv_data sync_is_history_loaded on_crosshair_move
  live-Promise i (select_stock o) w a h =
      reload-IsEmpty api start o w.chart.is_chart_ready w.chart w a h.no_histories
        (showing-IsWhole api start i w h)
  live-Promise i (set_interval j) w a h =
      reload-IsEmpty api start w.selected w.chart.is_chart_ready (record w.chart { interval = j }) w
        a h.no_histories (rechosen-IsWhole j w.chart (showing-IsWhole api start i w h))
  live-Promise i (select_stock_synced o) w a h =
      with_none-IsEmpty api start w.chart.ohlcv_data (reload o w.chart.is_chart_ready w.chart w) a.1
        (reload-IsEmpty api start o w.chart.is_chart_ready w.chart w a.0 h.no_histories
          (showing-IsWhole api start i w h))
  live-Promise i (set_interval_synced j) w a h =
      with_none-IsEmpty api start w.chart.ohlcv_data
        (reload w.selected w.chart.is_chart_ready (record w.chart { interval = j }) w) a.1
        (reload-IsEmpty api start w.selected w.chart.is_chart_ready
          (record w.chart { interval = j }) w a.0 h.no_histories
          (rechosen-IsWhole j w.chart (showing-IsWhole api start i w h)))
  live-Promise i chart_ready w a h = absurd (a tt)
  live-Promise i data_synced w a h = current-IsShowing api start i data_synced w tt (refl, refl) h
  live-Promise i loaded_synced w a h =
      current-IsShowing api start i loaded_synced w tt (refl, refl) h
  live-Promise i (scrolled range) w a h =
      current-IsShowing api start i (scrolled range) w tt (scroll-frame w.selected range w) h
  live-Promise i (more_answered r) w a h =
      current-IsShowing api start i (more_answered r) w a (answer_more-frame r w.more w) h
  live-Promise i (history_answered n r) w a h = absurd (a tt)
  live-Promise i (priced price timestamp) w a h =
      current-IsShowing api start i (priced price timestamp) w a
        (on_price-frame price timestamp w.chart, refl) h
  live-Promise i (crosshair_moved found) w a h =
      current-IsShowing api start i (crosshair_moved found) w tt (refl, refl) h

  pub step-Promise :
      (p : Phase) (e : Event) (w : World)
      → IsCalm p e w
      → Promise api start p w
      → Promise api start (next p e w.chart.interval) (step e w)
  step-Promise empty e w a h = empty-Promise e w a h
  step-Promise (live i) e w a h = live-Promise i e w a h

  pub run-Promise :
      (p : Phase) (es : List Event) (w : World)
      → AreCalm p es w
      → Promise api start p w
      → Promise api start (last_phase p es w) (run es w)
  unfolding run AreCalm last_phase
  run-Promise p [] w a h = h
  run-Promise p (e ∷ es) w a h =
      run-Promise (next p e w.chart.interval) es (step e w) a.1 (step-Promise p e w a.0 h)

  pub mounted-IsEmpty : (i : Interval) → IsEmpty api start (mounted i)
  mounted-IsEmpty i = record {
    chart = record {
      candles_same = refl;
      volumes_same = refl;
      ready_there = λ r. absurd (ground arith);
      synced = λ t. absurd (ground arith);
      no_candles = refl;
      shows_none = λ t. absurd (ground arith);
    };
    no_more = refl;
    one_history = omega arith;
    asked = λ n. absurd (n refl);
  }

  -- On a freshly mounted chart, through any number of selections and changes of the interval, none of
  -- them while an answer is on its way, the chart being made ready while no history is on its way or
  -- shown, with each history in order and for the one request on its way, from then on prices of a
  -- clock's time and older pages before their requests' candles, in any order with scrolls and renders,
  -- except that the candles of the state are copied into the ref in the render of a choice, and from
  -- there to the next history, only if there are none: from the answer of a history on to the next
  -- choice the chart shows exactly the candles of the state, a series in order of the chosen interval,
  -- and before and after a chart shows nothing.
  pub visit-Promise :
      (i : Interval) (es : List Event)
      → AreCalm empty es (mounted i)
      → Promise api start (last_phase empty es (mounted i)) (run es (mounted i))
  visit-Promise i es a = run-Promise empty es (mounted i) a (mounted-IsEmpty i)
