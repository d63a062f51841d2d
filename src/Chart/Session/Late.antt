-- ===== src/Chart/Session/Late.antt =====
-- The history of a stock that arrives after another one is selected.
use mathlib.Core.Path.{subst}
use stock_anomoly_detection.Prelude.{
  sym, map, if_cases, ◌≡◌, refl, ap, ◌∙◌, true, false, List, [], ◌∷◌, Option, some, arith,
}
use stock_anomoly_detection.Text.{Text}
use stock_anomoly_detection.Chart.{OhlcvPoint, Interval}
use stock_anomoly_detection.Chart.Series.{Candle, fit_content, update_chart_data}
use stock_anomoly_detection.Chart.Ticks.Outcome.{IsSeries}
use stock_anomoly_detection.Chart.Display.{CandlestickSeries, candle_of, perform, perform_all}
use stock_anomoly_detection.Chart.Display.Mirror.{update_chart_data-Mirrors}
use stock_anomoly_detection.Chart.Session.Live.{displayed}
use stock_anomoly_detection.Chart.Session.Live.Handlers.{displayed-push_all}
use stock_anomoly_detection.Chart.Session.{
  PriceChart, sync_interval, clean_up, initialize_chart, push, show_data, ok,
}
use stock_anomoly_detection.Chart.Session.Handlers.{HistoryRequest, on_history, pending_ticks, fit}
use stock_anomoly_detection.Chart.Session.Steps.{
  World, select_stock, history_answered, also, rebuild, reload, answer_history, step, run,
}
use stock_anomoly_detection.Chart.Session.Switch.{first_request, load_history-some}
use stock_anomoly_detection.Chart.Session.Races.{apply_all-nothing, on_history-nothing}

-- a chart of a selected stock whose history is on its way
abbrev pub waiting_world : PriceChart → Text → HistoryRequest → World
waiting_world s ticker r = record {
  chart = s;
  selected = some ticker;
  more = [];
  histories = r ∷ [];
}

-- the chart right after another stock is selected
abbrev selected_chart : PriceChart → PriceChart
selected_chart s = record (initialize_chart true (sync_interval (clean_up s))) {
  is_history_loaded = false;
}

select_stock_lem :
    (s : PriceChart) (former next : Text) (r : HistoryRequest)
    → s.is_chart_ready ≡ true
    → step (select_stock (some next)) (waiting_world s former r) ≡ record {
      chart = selected_chart s;
      selected = some next;
      more = [];
      histories = r ∷ first_request next (selected_chart s) ∷ [];
    }
unfolding step reload rebuild
select_stock_lem s former next r ready =
    ap
      (λ (q : PriceChart × Option HistoryRequest).
        let w : World = record {
          chart = q.0;
          selected = some next;
          more = [];
          histories = also (r ∷ []) q.1;
        } in
        w)
      (load_history-some next s.is_chart_ready (initialize_chart true (sync_interval (clean_up s)))
        ready)

-- a chart that is there, at an interval, with no candles in the ref
record IsReady (i : Interval) (c : PriceChart) : Type 0 where
  candles_there : c.candle_series ≡ true
  volumes_there : c.volume_series ≡ true
  at_interval : c.interval_ref ≡ i
  no_candles : c.ohlcv_data_ref ≡ []

selected_chart-IsReady :
    (s : PriceChart) → s.chart_api ≡ true → IsReady s.interval (selected_chart s)
unfolding initialize_chart sync_interval clean_up push
selected_chart-IsReady s there = record {
  candles_there = refl;
  volumes_there = refl;
  at_interval = ground arith;
  no_candles = ground arith;
}

fit-IsReady : (i : Interval) (c : PriceChart) → IsReady i c → IsReady i (fit c)
unfolding fit push
fit-IsReady i c h =
    if_cases (IsReady i) c.chart_api
      (λ _. record {
        candles_there = h.candles_there;
        volumes_there = h.volumes_there;
        at_interval = h.at_interval;
        no_candles = h.no_candles;
      })
      (λ _. h)

-- with no candles in the ref no buffered price is applied
shown_history : List OhlcvPoint → PriceChart → PriceChart
unfolding show_data
shown_history history c = fit (show_data history (record c { ohlcv_data = history }))

shown_history-IsReady :
    (i : Interval) (history : List OhlcvPoint) (c : PriceChart)
    → IsReady i c
    → IsReady i (shown_history history c)
unfolding shown_history show_data push
shown_history-IsReady i history c h =
    fit-IsReady i (show_data history (record c { ohlcv_data = history })) (record {
      candles_there = h.candles_there;
      volumes_there = h.volumes_there;
      at_interval = h.at_interval;
      no_candles = h.no_candles;
    })

on_history-IsReady :
    (i : Interval) (history : List OhlcvPoint) (c : PriceChart)
    → IsReady i c
    → IsReady i (on_history (ok history) c)
unfolding on_history shown_history
on_history-IsReady i history c h =
    let shown = shown_history history c in
    let ready = shown_history-IsReady i history c h in
    let r =
      subst (IsReady i)
        (sym (apply_all-nothing (pending_ticks history shown.tick_buffer) shown ready.no_candles))
        ready in
    record {
      candles_there = r.candles_there;
      volumes_there = r.volumes_there;
      at_interval = r.at_interval;
      no_candles = r.no_candles;
    }

module _ (api : CandlestickSeries) (start : api.Series) where
  -- what the chart shows
  abbrev candles_shown : Interval → PriceChart → List Candle
  candles_shown i c = api.shown (displayed api i start c.calls)

  fit-shown : (i : Interval) (c : PriceChart) → candles_shown i (fit c) ≡ candles_shown i c
  unfolding fit push
  fit-shown i c =
      if_cases (λ (d : PriceChart). candles_shown i d ≡ candles_shown i c) c.chart_api
        (λ _.
          ap api.shown (displayed-push_all api i start (fit_content ∷ []) c.calls)
          ∙ (unfold perform_all perform in refl))
        (λ _. refl)

  show_data-shown :
      (i : Interval) (history : List OhlcvPoint) (c : PriceChart)
      → IsReady i c
      → IsSeries i history
      → candles_shown i (show_data history c) ≡ map (candle_of i) history
  unfolding show_data push
  show_data-shown i history c h s =
      rw (h.candles_there, h.volumes_there, h.at_interval)
        (ap api.shown
            (displayed-push_all api i start (update_chart_data true true i history) c.calls)
          ∙ update_chart_data-Mirrors api i history (displayed api i start c.calls) s)

  on_history-shown :
      (i : Interval) (history : List OhlcvPoint) (c : PriceChart)
      → IsReady i c
      → IsSeries i history
      → candles_shown i (on_history (ok history) c) ≡ map (candle_of i) history
  unfolding on_history shown_history
  on_history-shown i history c h s =
      let shown = shown_history history c in
      let ready = shown_history-IsReady i history c h in
      let same =
        apply_all-nothing (pending_ticks history shown.tick_buffer) shown ready.no_candles in
      ap (λ d. candles_shown i d) same
      ∙ fit-shown i (show_data history (record c { ohlcv_data = history }))
      ∙ show_data-shown i history (record c { ohlcv_data = history })
          (record {
            candles_there = h.candles_there;
            volumes_there = h.volumes_there;
            at_interval = h.at_interval;
            no_candles = h.no_candles;
          })
          s

  -- Where another stock is selected while the history of the former one is on its way, and that history,
  -- a series in order, arrives after the new stock's own, the state of the new stock's chart has the
  -- former stock's candles, and the chart shows them.
  pub late_history_replaces :
      (s : PriceChart) (former next : Text) (r : HistoryRequest) (own late : List OhlcvPoint)
      → s.is_chart_ready ≡ true
      → s.chart_api ≡ true
      → IsSeries s.interval late
      → (let w =
            run
              (select_stock (some next)
                ∷ history_answered 1 (ok own)
                ∷ history_answered 0 (ok late)
                ∷ [])
              (waiting_world s former r) in
          (w.chart.ohlcv_data ≡ late)
          × (candles_shown s.interval w.chart ≡ map (candle_of s.interval) late)
          × (w.selected ≡ some next)
          × (w.histories ≡ []))
  unfolding run step answer_history
  late_history_replaces s former next r own late ready there series =
      let first =
        on_history-IsReady s.interval own (selected_chart s) (selected_chart-IsReady s there) in
      rw (select_stock_lem s former next r ready) (
        (on_history-nothing late (on_history (ok own) (selected_chart s)) first.no_candles).0,
        on_history-shown s.interval late (on_history (ok own) (selected_chart s)) first series,
        refl,
        refl,
      )
