-- ===== src/Chart/Session/Calm/Empty.antt =====
-- What the events of the empty phase leave.
use stock_anomoly_detection.Prelude.{
  ℕ, ◌≡◌, refl, sym, ap, ◌∙◌, true, not, ◌==◌, List, [], ◌∷◌, Option, none, some, length, if_cases,
  arith,
}
use mathlib.Core.Path.{subst}
use stock_anomoly_detection.Text.{Text}
use stock_anomoly_detection.Chart.{OhlcvPoint, Interval}
use stock_anomoly_detection.Chart.Series.{fit_content, update_chart_data}
use stock_anomoly_detection.Chart.Ticks.Outcome.{IsSeries}
use stock_anomoly_detection.Chart.Display.{CandlestickSeries, perform, perform_all}
use stock_anomoly_detection.Chart.Display.Mirror.{update_chart_data-Mirrors}
use stock_anomoly_detection.Chart.Session.{PriceChart, MoreRequest, push, push_all, show_data, ok}
use stock_anomoly_detection.Chart.Session.Handlers.{
  LogicalRange, on_range, on_visible_range, HistoryRequest, pending_ticks, fit, on_history,
  on_price,
}
use stock_anomoly_detection.Chart.Session.Races.{apply_all-nothing, fit-ref}
use stock_anomoly_detection.Chart.Session.Steps.{World, also, scroll}
use stock_anomoly_detection.Chart.Session.Live.{IsShown, displayed}
use stock_anomoly_detection.Chart.Session.Live.Handlers.{displayed-push_all}
use stock_anomoly_detection.Chart.Session.Calm.{IsBlank, IsEmpty}

-- without a candle in the ref, scrolling asks for nothing
pub on_range-nothing :
    (t : Text) (i : Interval) (r : LogicalRange) (c : PriceChart)
    → c.ohlcv_data_ref ≡ []
    → on_range t i r c ≡ (c, none)
unfolding on_range
on_range-nothing t i r c e =
    let zero_bars : (length c.ohlcv_data_ref == 0) ≡ true =
      ap (λ (l : List OhlcvPoint). length l == 0) e in
    ground (arith, zero_bars)

pub scroll-nothing :
    (o : Option Text) (r : Option LogicalRange) (w : World)
    → w.chart.ohlcv_data_ref ≡ []
    → scroll o r w ≡ w
unfolding scroll on_visible_range
scroll-nothing none r w e = refl
scroll-nothing (some t) none w e = refl
scroll-nothing (some t) (some r) w e =
    ap
      (λ (a : PriceChart × Option MoreRequest).
        let v : World = record w { chart = a.0; more = also w.more a.1 } in v)
      (on_range-nothing t w.chart.interval r w.chart e)

module _ (api : CandlestickSeries) (start : api.Series) where
  -- and no price reaches the chart
  pub on_price-IsBlank :
      (price : Option ℕ) (timestamp : ℕ) (c : PriceChart)
      → IsBlank api start c
      → IsBlank api start (on_price price timestamp c)
  unfolding on_price
  on_price-IsBlank none timestamp c h = h
  on_price-IsBlank (some price) timestamp c h =
      if_cases (IsBlank api start) (price == 0) (λ _. h)
        (λ _.
          if_cases (IsBlank api start) (not c.is_history_loaded) (λ _. h)
            (λ _.
              subst (IsBlank api start)
                (sym (
                  apply_all-nothing (record { price = price; timestamp = timestamp } ∷ []) c
                    h.no_candles))
                h))

  -- a history that fails leaves the chart empty
  pub unanswered-IsEmpty :
      (w : World) (hs : List HistoryRequest)
      → IsEmpty api start w
      → hs ≡ []
      → IsEmpty api start
          (record w { chart = record w.chart { is_history_loaded = true }; histories = hs })
  unanswered-IsEmpty w hs h e = record {
    chart = h.chart;
    no_more = h.no_more;
    one_history = rw e (omega arith);
    asked = λ n. absurd (n e);
  }

  fit-IsShown :
      (i : Interval) (c : PriceChart) → IsShown api i start c → IsShown api i start (fit c)
  unfolding fit push
  fit-IsShown i c h = if_cases (IsShown api i start) c.chart_api (λ _. fitted) (λ _. h)
    where
      fitted : IsShown api i start (record c { calls = push_all (fit_content ∷ []) c.calls })
      fitted = record {
        at_interval = h.at_interval;
        candles_there = h.candles_there;
        volumes_there = h.volumes_there;
        series = h.series;
        series_ref = h.series_ref;
        shows =
            ap api.shown (displayed-push_all api i start (fit_content ∷ []) c.calls)
            ∙ (unfold perform_all perform in h.shows);
      }

  no_candles-IsSeries : (i : Interval) (l : List OhlcvPoint) → l ≡ [] → IsSeries i l
  no_candles-IsSeries i l e =
      subst (IsSeries i) (sym e) (record { ascending = tt; in_seconds = tt; candles = tt })

  first_data-IsShown :
      (history : List OhlcvPoint) (c : PriceChart)
      → IsBlank api start c
      → c.chart_api ≡ true
      → IsSeries c.interval history
      → IsShown api c.interval start (show_data history (record c { ohlcv_data = history }))
  unfolding show_data push
  first_data-IsShown history c h there s = record {
    at_interval = h.synced there;
    candles_there = h.candles_same ∙ there;
    volumes_there = h.volumes_same ∙ there;
    series = s;
    series_ref = no_candles-IsSeries c.interval c.ohlcv_data_ref h.no_candles;
    shows =
        ap (λ cs. api.shown (displayed api c.interval start (push_all cs c.calls))) calls
        ∙ ap api.shown (
            displayed-push_all api c.interval start (update_chart_data true true c.interval history)
              c.calls)
        ∙ update_chart_data-Mirrors api c.interval history (displayed api c.interval start c.calls)
            s;
  }
    where
      calls :
          update_chart_data c.candle_series c.volume_series c.interval_ref history
          ≡ update_chart_data true true c.interval history
      calls =
          ap (λ b. update_chart_data b c.volume_series c.interval_ref history)
            (h.candles_same ∙ there)
          ∙ ap (λ b. update_chart_data true b c.interval_ref history) (h.volumes_same ∙ there)
          ∙ ap (λ i. update_chart_data true true i history) (h.synced there)

  -- A history in order opens the live phase.
  pub on_history-IsShown :
      (history : List OhlcvPoint) (c : PriceChart)
      → IsBlank api start c
      → c.chart_api ≡ true
      → IsSeries c.interval history
      → IsShown api c.interval start (on_history (ok history) c)
  unfolding on_history show_data push
  on_history-IsShown history c h there s =
      let shown = show_data history (record c { ohlcv_data = history }) in
      subst (IsShown api c.interval start)
        (sym (
          apply_all-nothing (pending_ticks history (fit shown).tick_buffer) (fit shown)
            (fit-ref shown ∙ h.no_candles)))
        (fit-IsShown c.interval shown (first_data-IsShown history c h there s))
