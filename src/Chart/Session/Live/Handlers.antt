-- ===== src/Chart/Session/Live/Handlers.antt =====
-- What prices and pages leave of a live chart.
use mathlib.Core.List.{reverse, reverse-cons, append_assoc, append-nil}
use stock_anomoly_detection.Prelude.{
  ℕ, ◌≡◌, refl, sym, ap, ◌∙◌, true, not, ◌||◌, List, [], ◌∷◌, ◌++◌, Option, none, some, length, ltb,
  ◌==◌, if_cases, All, All-append,
}
use stock_anomoly_detection.Text.{Text}
use stock_anomoly_detection.Chart.{OhlcvPoint, Interval}
use stock_anomoly_detection.Chart.Series.{ChartCall, update_chart_data}
use stock_anomoly_detection.Chart.Ticks.{PendingTick, tick_update, apply_ticks}
use stock_anomoly_detection.Chart.Ticks.Outcome.{IsSeries}
use stock_anomoly_detection.Chart.Ticks.Candles.{IsNow, tick_update-IsSeries}
use stock_anomoly_detection.Chart.Paging.{merge_older}
use stock_anomoly_detection.Chart.Paging.Prepend.{IsPage, merge_older-append}
use stock_anomoly_detection.Chart.Display.{CandlestickSeries, perform_all}
use stock_anomoly_detection.Chart.Display.Mirror.{
  update_chart_data-Mirrors, ticks-Mirrors, perform_all-append,
}
use stock_anomoly_detection.Chart.Session.{
  PriceChart, push, push_all, show_data, MoreRequest, Response, failed, not_ok, ok, load_more,
  start_loading,
}
use stock_anomoly_detection.Chart.Session.Handlers.{
  LogicalRange, near_start, on_range, on_visible_range, add_older, on_more, apply_all, on_price,
}
use stock_anomoly_detection.Chart.Session.Steps.{World, also, scroll, answer_more}
use stock_anomoly_detection.Chart.Session.Live.{Keeps, IsAsked, IsShown, IsLive, displayed}

push_all-append : (cs log : List ChartCall) → reverse (push_all cs log) ≡ reverse log ++ cs
unfolding push_all
push_all-append [] log = sym (append-nil (reverse log))
push_all-append (c ∷ cs) log =
    push_all-append cs (c ∷ log)
    ∙ ap (λ l. l ++ cs) (reverse-cons c log)
    ∙ append_assoc (reverse log) (c ∷ []) cs

module _ (api : CandlestickSeries) (i : Interval) (start : api.Series) where
  pub displayed-push_all :
      (cs calls : List ChartCall)
      → (displayed api i start) (push_all cs calls)
        ≡ perform_all api cs ((displayed api i start) calls)
  displayed-push_all cs calls =
      ap (λ l. perform_all api l start) (push_all-append cs calls)
      ∙ perform_all-append api i (reverse calls) cs start

  show_data-IsShown :
      (points : List OhlcvPoint) (c : PriceChart)
      → (IsShown api i start) c
      → IsSeries i points
      → (IsShown api i start) (show_data points (record c { ohlcv_data = points }))
  unfolding show_data push
  show_data-IsShown points c h s = record {
    at_interval = h.at_interval;
    candles_there = h.candles_there;
    volumes_there = h.volumes_there;
    series = s;
    series_ref = h.series_ref;
    shows =
        rw
          (
            h.candles_there,
            h.volumes_there,
            h.at_interval,
            displayed-push_all (update_chart_data true true i points) c.calls,
          )
          (update_chart_data-Mirrors api i points ((displayed api i start) c.calls) s);
  }

  apply_ticks-IsSeries :
      (ts : List PendingTick) (m : List OhlcvPoint)
      → All (λ (t : PendingTick). IsNow t.timestamp) ts
      → IsSeries i m
      → IsSeries i (apply_ticks i ts m).0
  unfolding apply_ticks
  apply_ticks-IsSeries [] m n h = h
  apply_ticks-IsSeries (t ∷ ts) m n h =
      apply_ticks-IsSeries ts (tick_update i t.price t.timestamp m).0 n.1
        (tick_update-IsSeries i t.price t.timestamp m n.0 h)

  apply_all-IsShown :
      (ts : List PendingTick) (c : PriceChart)
      → All (λ (t : PendingTick). IsNow t.timestamp) ts
      → (IsShown api i start) c
      → (IsShown api i start) (apply_all ts c)
  unfolding apply_all push
  apply_all-IsShown ts c n h =
      if_cases (IsShown api i start) (not c.candle_series || length c.ohlcv_data_ref == 0) (λ _. h)
        (λ _. rw h.at_interval (record {
          at_interval = refl;
          candles_there = h.candles_there;
          volumes_there = h.volumes_there;
          series = apply_ticks-IsSeries ts c.ohlcv_data n h.series;
          series_ref = h.series_ref;
          shows = rw (displayed-push_all (apply_ticks i ts c.ohlcv_data).1 c.calls) (
              ticks-Mirrors api i ts c.ohlcv_data ((displayed api i start) c.calls) n h.series
                h.shows);
        }))

  pub on_price-IsShown :
      (price : Option ℕ) (timestamp : ℕ) (c : PriceChart)
      → IsNow timestamp
      → (IsShown api i start) c
      → (IsShown api i start) (on_price price timestamp c)
  unfolding on_price
  on_price-IsShown none timestamp c n h = h
  on_price-IsShown (some price) timestamp c n h =
      let tick : PendingTick = record { price = price; timestamp = timestamp } in
      if_cases (IsShown api i start) (price == 0) (λ _. h)
        (λ _.
          if_cases (IsShown api i start) (not c.is_history_loaded) (λ _. h)
            (λ _. apply_all-IsShown (tick ∷ []) c (n, tt) h))

  on_more-IsShown :
      (q : MoreRequest) (more : List OhlcvPoint) (c : PriceChart)
      → IsAsked i q
      → IsPage i q.current_data more
      → (IsShown api i start) c
      → (IsShown api i start) (add_older q.current_data more c)
  unfolding add_older
  on_more-IsShown q [] c s p h = h
  on_more-IsShown q (m ∷ more) c s p h =
      if_cases (IsShown api i start)
        (ltb (length q.current_data) (length (merge_older (m ∷ more) q.current_data)))
        (λ _.
          show_data-IsShown (merge_older (m ∷ more) q.current_data) c h
            (merge_older-append i (m ∷ more) q.current_data p s).1)
        (λ _. h)

  pub answer_more-IsLive :
      (r : Response) (l : List MoreRequest) (w : World)
      → All (IsAsked i) l
      → Keeps i r l
      → (IsLive api i start) w
      → (IsLive api i start) (answer_more r l w)
  unfolding answer_more on_more
  answer_more-IsLive r [] w a k h = h
  answer_more-IsLive failed (q ∷ l) w a k h = record { chart = h.chart; asked = a.1 }
  answer_more-IsLive not_ok (q ∷ l) w a k h = record { chart = h.chart; asked = a.1 }
  answer_more-IsLive (ok more) (q ∷ l) w a k h = record {
    chart = on_more-IsShown q more w.chart a.0 k h.chart;
    asked = a.1;
  }

  -- the chart and the request, if any, that a callback leaves
  abbrev AreAsked : PriceChart × Option MoreRequest → Type 0
  AreAsked (c, none) = (IsShown api i start) c
  AreAsked (c, some q) = (IsShown api i start) c × IsAsked i q

  start_loading-AreAsked :
      (t : Text) (j : Interval) (c : PriceChart) (points : List OhlcvPoint)
      → IsSeries i points
      → (IsShown api i start) c
      → AreAsked (start_loading t j c points)
  unfolding start_loading
  start_loading-AreAsked t j c [] s h = h
  start_loading-AreAsked t j c (p ∷ ps) s h =
      if_cases AreAsked (c.is_fetching_ref || not c.is_history_loaded_ref) (λ _. h) (λ _. (h, s))

  on_range-AreAsked :
      (t : Text) (j : Interval) (r : LogicalRange) (c : PriceChart)
      → (IsShown api i start) c
      → AreAsked (on_range t j r c)
  unfolding on_range load_more
  on_range-AreAsked t j r c h =
      if_cases AreAsked (c.is_fetching_ref || c.no_more_data_ref) (λ _. h)
        (λ _.
          if_cases AreAsked (length c.ohlcv_data_ref == 0) (λ _. h)
            (λ _.
              if_cases AreAsked (near_start r)
                (λ _. start_loading-AreAsked t j c c.ohlcv_data_ref h.series_ref h) (λ _. h)))

  also-IsLive :
      (r : PriceChart × Option MoreRequest) (w : World)
      → (IsLive api i start) w
      → AreAsked r
      → (IsLive api i start) (record w { chart = r.0; more = also w.more r.1 })
  also-IsLive (c, none) w h a = record { chart = a; asked = h.asked }
  also-IsLive (c, some q) w h a = record {
    chart = a.0;
    asked = All-append (IsAsked i) w.more (q ∷ []) h.asked (a.1, tt);
  }

  pub scroll-IsLive :
      (o : Option Text) (r : Option LogicalRange) (w : World)
      → (IsLive api i start) w
      → (IsLive api i start) (scroll o r w)
  unfolding scroll on_visible_range
  scroll-IsLive none r w h = h
  scroll-IsLive (some t) none w h = also-IsLive (w.chart, none) w h h.chart
  scroll-IsLive (some t) (some r) w h =
      also-IsLive (on_range t w.chart.interval r w.chart) w h
        (on_range-AreAsked t w.chart.interval r w.chart h.chart)
