-- ===== src/Chart/Display/Mirror.antt =====
-- The chart shows the series that the program holds.
use mathlib.Core.List.{map-append}
use stock_anomoly_detection.Prelude.{
  ℕ, ◌<◌, ◌≡◌, refl, sym, ap, ◌∙◌, true, List, [], ◌∷◌, ◌++◌, map, some, last, nil_of_last, ltb,
  ◌==◌, All, arith, Bool-cases, inl, inr, Option-cases, lt→ltb,
}
use stock_anomoly_detection.Keyed.Put.{IsAscending}
use stock_anomoly_detection.Chart.{OhlcvPoint, Interval, key_lt}
use stock_anomoly_detection.Chart.Series.{
  ChartCall, chart_key, to_bar, final_data, update_chart_data,
}
use stock_anomoly_detection.Chart.Series.Order.{IsSeconds, point_rank, key_lt-chart_key}
use stock_anomoly_detection.Chart.Series.Unordered.{final_data_ascending}
use stock_anomoly_detection.Chart.Ticks.{
  set_last, merge_tick, new_time, new_candle, candle_at, tick_update, PendingTick, apply_ticks,
}
use stock_anomoly_detection.Chart.Ticks.Buckets.{
  tick_bucket, bucket, bucket-new_time, tick_key-new_time,
}
use stock_anomoly_detection.Chart.Ticks.Outcome.{
  IsSeries, tick_after-bucket, tick_update-last, All-last,
}
use stock_anomoly_detection.Chart.Ticks.Candles.{
  IsNow, tick_update-IsSeries, new_time-lt, bucket-lt,
}
use stock_anomoly_detection.Chart.Display.{
  CandlestickSeries, candle_of_bar, candle_of, perform, perform_all,
}

-- all but the last point
init : List OhlcvPoint → List OhlcvPoint
init [] = []
init (x ∷ []) = []
init (x ∷ y ∷ xs) = x ∷ init (y ∷ xs)

init-last : (p : OhlcvPoint) (m : List OhlcvPoint) → last m ≡ some p → m ≡ init m ++ p ∷ []
unfolding init
init-last p [] e = absurd (ground arith)
init-last p (x ∷ []) e = let h : x ≡ p = ground arith in ap (λ z. z ∷ []) h
init-last p (x ∷ y ∷ m) e = ap (◌∷◌ x) (init-last p (y ∷ m) e)

set_last-init :
    (p q : OhlcvPoint) (m : List OhlcvPoint) → last m ≡ some p → set_last q m ≡ init m ++ q ∷ []
unfolding init set_last
set_last-init p q [] e = absurd (ground arith)
set_last-init p q (x ∷ []) e = refl
set_last-init p q (x ∷ y ∷ m) e = ap (◌∷◌ x) (set_last-init p q (y ∷ m) e)

candles_of_bars :
    (i : Interval) (points : List OhlcvPoint)
    → map candle_of_bar (map (to_bar i) points) ≡ map (candle_of i) points
unfolding to_bar
candles_of_bars i [] = refl
candles_of_bars i (p ∷ ps) = ap (◌∷◌ (candle_of i p)) (candles_of_bars i ps)

-- ascending buckets are ascending keys
ranks_ascend :
    (i : Interval) (l : List OhlcvPoint)
    → IsAscending (λ (p : OhlcvPoint). bucket i p.time) l
    → IsAscending (point_rank i) l
ranks_ascend i [] a = tt
ranks_ascend i (p ∷ ps) a = (over ps a.0, ranks_ascend i ps a.1)
  where
    over :
        (l : List OhlcvPoint)
        → All (λ (q : OhlcvPoint). bucket i p.time < bucket i q.time) l
        → All (λ (q : OhlcvPoint). point_rank i p < point_rank i q) l
    over [] u = tt
    over (q ∷ l) u = (bucket-lt i p.time q.time u.0, over l u.1)

module _ (api : CandlestickSeries) (i : Interval) where
  -- the chart shows these points
  abbrev pub Mirrors : List OhlcvPoint → api.Series → Type 0
  Mirrors points s = api.shown s ≡ map (candle_of i) points

  -- `updateChartData` shows the series
  pub update_chart_data-Mirrors :
      (points : List OhlcvPoint) (s : api.Series)
      → IsSeries i points
      → Mirrors points (perform_all api (update_chart_data true true i points) s)
  unfolding update_chart_data perform_all
  update_chart_data-Mirrors points s h =
      api.shown-set_data (final_data i points) s
      ∙ ap (map candle_of_bar)
          (final_data_ascending i points h.in_seconds (ranks_ascend i points h.ascending))
      ∙ candles_of_bars i points

  shown_split :
      (p : OhlcvPoint) (m : List OhlcvPoint) (s : api.Series)
      → last m ≡ some p
      → Mirrors m s
      → api.shown s ≡ map (candle_of i) (init m) ++ candle_of i p ∷ []
  shown_split p m s e h =
      h ∙ ap (map (candle_of i)) (init-last p m e) ∙ map-append (candle_of i) (init m) (p ∷ [])

  merged-Mirrors :
      (price : ℕ) (p : OhlcvPoint) (m : List OhlcvPoint) (s : api.Series)
      → last m ≡ some p
      → Mirrors m s
      → Mirrors
          (set_last (merge_tick price p) m)
          (api.update (candle_at (chart_key i p.time) (merge_tick price p)) s)
  unfolding merge_tick
  merged-Mirrors price p m s e h =
      let q = merge_tick price p in
      api.shown-update_last (map (candle_of i) (init m)) (candle_of i p) (candle_of i q) s
        (shown_split p m s e h) refl
      ∙ sym (
          ap (map (candle_of i)) (set_last-init p q m e)
          ∙ map-append (candle_of i) (init m) (q ∷ []))

  appended-Mirrors :
      (q p : OhlcvPoint) (m : List OhlcvPoint) (s : api.Series)
      → last m ≡ some p
      → key_lt (chart_key i p.time) (chart_key i q.time) ≡ true
      → Mirrors m s
      → Mirrors (m ++ q ∷ []) (api.update (candle_of i q) s)
  appended-Mirrors q p m s e later h =
      let split = shown_split p m s e h in
      api.shown-update_later (map (candle_of i) (init m)) (candle_of i p) (candle_of i q) s split
        later
      ∙ ap (λ l. l ++ candle_of i q ∷ []) (sym split ∙ h)
      ∙ sym (map-append (candle_of i) m (q ∷ []))

  -- One live price keeps the chart showing the series.
  pub tick_update-Mirrors :
      (price timestamp : ℕ) (m : List OhlcvPoint) (s : api.Series)
      → IsNow timestamp
      → IsSeries i m
      → Mirrors m s
      → Mirrors
          (tick_update i price timestamp m).0
          (perform_all api (tick_update i price timestamp m).1 s)
  unfolding perform_all tick_update new_candle
  tick_update-Mirrors price timestamp m s n h shows = elim (Option-cases (last m)) [
    | inl e ↦
        let empty = nil_of_last m e in
        rw (e, empty, tick_update, tick_key-new_time i timestamp n.0 n.1)
          (api.shown-update_first (candle_of i (new_candle i price timestamp)) s
            (shows ∙ ap (map (candle_of i)) empty))
    | inr (p, e) ↦
        let secs = All-last IsSeconds p m e h.in_seconds in
        let q = new_candle i price timestamp in
        rw
          (tick_update-last i price timestamp m e, tick_after-bucket i price timestamp m p n.0 secs)
          (elim (Bool-cases (ltb (tick_bucket i timestamp) (bucket i p.time))) [
            | inl old ↦ rw old shows
            | inr new ↦ rw new (elim (Bool-cases (bucket i p.time == tick_bucket i timestamp)) [
              | inl same ↦ rw same (merged-Mirrors price p m s e shows)
              | inr other ↦
                  let lt : bucket i p.time < bucket i (new_time i timestamp) =
                    rw (bucket-new_time i timestamp n.0 n.1) (ground arith) in
                  rw (other, tick_key-new_time i timestamp n.0 n.1)
                    (appended-Mirrors q p m s e
                      (key_lt-chart_key i p.time (new_time i timestamp) secs
                          (new_time-lt i timestamp n)
                        ∙ lt→ltb _ _ (bucket-lt i p.time (new_time i timestamp) lt))
                      shows)
            ])
          ])
  ]

  pub perform_all-append :
      (cs ds : List ChartCall) (s : api.Series)
      → perform_all api (cs ++ ds) s ≡ perform_all api ds (perform_all api cs s)
  unfolding perform_all
  perform_all-append [] ds s = refl
  perform_all-append (c ∷ cs) ds s = perform_all-append cs ds (perform api c s)

  pub ticks-Mirrors :
      (ts : List PendingTick) (m : List OhlcvPoint) (s : api.Series)
      → All (λ (t : PendingTick). IsNow t.timestamp) ts
      → IsSeries i m
      → Mirrors m s
      → Mirrors (apply_ticks i ts m).0 (perform_all api (apply_ticks i ts m).1 s)
  unfolding apply_ticks perform_all
  ticks-Mirrors [] m s n h shows = shows
  ticks-Mirrors (t ∷ ts) m s n h shows =
      let now = tick_update i t.price t.timestamp m in
      rw (perform_all-append now.1 (apply_ticks i ts now.0).1 s) (
        ticks-Mirrors ts now.0 (perform_all api now.1 s) n.1
          (tick_update-IsSeries i t.price t.timestamp m n.0 h)
          (tick_update-Mirrors t.price t.timestamp m s n.0 h shows))

  -- After `updateChartData` with a series in order, and after any number of live prices of any age, the
  -- chart shows exactly the candles of the series that the program then holds, each under its key.
  pub apply_ticks-Mirrors :
      (ts : List PendingTick) (points : List OhlcvPoint) (s : api.Series)
      → IsSeries i points
      → All (λ (t : PendingTick). IsNow t.timestamp) ts
      → Mirrors
          (apply_ticks i ts points).0
          (perform_all api (update_chart_data true true i points ++ (apply_ticks i ts points).1) s)
  apply_ticks-Mirrors ts points s h n =
      rw (perform_all-append (update_chart_data true true i points) (apply_ticks i ts points).1 s) (
        ticks-Mirrors ts points (perform_all api (update_chart_data true true i points) s) n h
          (update_chart_data-Mirrors points s h))
