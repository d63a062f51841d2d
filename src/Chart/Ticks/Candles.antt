-- ===== src/Chart/Ticks/Candles.antt =====
-- Live prices keep the series in order, keep the chart in step with it, and add up to candles.
use stock_anomoly_detection.Prelude.{
  ℕ, ◌/◌, ◌<◌, ◌≡◌, refl, false, List, [], ◌∷◌, ◌++◌, some, last, last-append, nil_of_last, ltb,
  ◌==◌, All-append, arith, Bool-cases, inl, inr, Option-cases, ◌⊎◌,
}
use stock_anomoly_detection.Chart.{
  OhlcvPoint, Interval, minute, day, week, month, key_lt, seconds_bound,
}
use stock_anomoly_detection.Chart.Series.{update_candle, chart_key}
use stock_anomoly_detection.Chart.Series.Order.{IsSeconds, key_rank, key_lt-chart_key}
use stock_anomoly_detection.Chart.Ticks.{
  set_last, merge_tick, new_time, new_candle, candle_at, tick_update,
}
use stock_anomoly_detection.Chart.Ticks.Buckets.{
  IsClock, tick_bucket, bucket, bucket-new_time, tick_key-new_time,
}
use stock_anomoly_detection.Chart.Ticks.Outcome.{
  IsCandle, IsSeries, merge_tick-IsCandle, new_candle-IsCandle, set_last-All, All-last,
  last-set_last, below_last, append-IsAscending, weaken, set_last-IsAscending, tick_after-bucket,
  tick_update-last,
}

-- a clock reading whose seconds are below the bound for seconds
abbrev pub IsNow : ℕ → Type 0
IsNow timestamp = IsClock timestamp × (timestamp / 1000 < seconds_bound)

pub new_time-lt :
    (i : Interval) (timestamp : ℕ) → IsNow timestamp → new_time i timestamp < seconds_bound
new_time-lt i timestamp n = let h = n.1 in ground arith

appended-IsSeries :
    (i : Interval) (price timestamp : ℕ) {prev : List OhlcvPoint} {p : OhlcvPoint}
    → IsNow timestamp
    → IsSeries i prev
    → last prev ≡ some p
    → bucket i p.time < tick_bucket i timestamp
    → IsSeries i (prev ++ new_candle i price timestamp ∷ [])
unfolding new_candle
appended-IsSeries i price timestamp {prev} {p} n s e lt =
    let q = new_candle i price timestamp in
    let rank = λ (r : OhlcvPoint). bucket i r.time in
    let same = bucket-new_time i timestamp n.0 n.1 in
    record {
      ascending =
          append-IsAscending rank q prev
            (weaken rank (bucket i p.time) (rank q) prev (omega arith)
              (below_last rank p prev e s.ascending))
            s.ascending;
      in_seconds = All-append IsSeconds prev (q ∷ []) s.in_seconds (new_time-lt i timestamp n, tt);
      candles =
          All-append IsCandle prev (q ∷ []) s.candles (new_candle-IsCandle i price timestamp, tt);
    }

merged-IsSeries :
    (i : Interval) (price : ℕ) {prev : List OhlcvPoint} {p : OhlcvPoint}
    → IsSeries i prev
    → last prev ≡ some p
    → IsSeries i (set_last (merge_tick price p) prev)
unfolding merge_tick
merged-IsSeries i price {prev} {p} s e =
    let q = merge_tick price p in
    record {
      ascending = set_last-IsAscending (λ r. bucket i r.time) p q prev e refl s.ascending;
      in_seconds =
          set_last-All IsSeconds q prev (All-last IsSeconds p prev e s.in_seconds) s.in_seconds;
      candles =
          set_last-All IsCandle q prev
            (merge_tick-IsCandle price p (All-last IsCandle p prev e s.candles)) s.candles;
    }

-- A live price keeps the series: candles stay in strictly ascending buckets, and well formed.
pub tick_update-IsSeries :
    (i : Interval) (price timestamp : ℕ) (prev : List OhlcvPoint)
    → IsNow timestamp
    → IsSeries i prev
    → IsSeries i (tick_update i price timestamp prev).0
unfolding tick_update new_candle
tick_update-IsSeries i price timestamp prev n s = elim (Option-cases (last prev)) [
  | inl e ↦
      rw (e, nil_of_last prev e, tick_update)
        (record {
          ascending = (tt, tt);
          in_seconds = (new_time-lt i timestamp n, tt);
          candles = (new_candle-IsCandle i price timestamp, tt);
        })
  | inr (p, e) ↦ rw (tick_update-last i price timestamp prev e) (
      rw (tick_after-bucket i price timestamp prev p n.0 (All-last IsSeconds p prev e s.in_seconds))
        (elim (Bool-cases (ltb (tick_bucket i timestamp) (bucket i p.time))) [
          | inl old ↦ rw old s
          | inr new ↦ rw new (elim (Bool-cases (bucket i p.time == tick_bucket i timestamp)) [
            | inl same ↦ rw same (merged-IsSeries i price s e)
            | inr other ↦ rw other (appended-IsSeries i price timestamp n s e (ground arith))
          ])
        ]))
]

pub bucket-lt : (i : Interval) (s t : ℕ) → bucket i s < bucket i t → key_rank i s < key_rank i t
bucket-lt minute s t h = omega arith
bucket-lt day s t h = h
bucket-lt week s t h = h
bucket-lt month s t h = h

-- The chart is told exactly when the series changes, and then of its new last candle, under the
-- key that the chart has for it; that key is never before the key of the former last candle.
pub tick_update-calls :
    (i : Interval) (price timestamp : ℕ) (prev : List OhlcvPoint) (p : OhlcvPoint)
    → IsNow timestamp
    → IsSeries i prev
    → last prev ≡ some p
    → (tick_update i price timestamp prev ≡ (prev, []))
      ⊎ ((q : OhlcvPoint) × (last (tick_update i price timestamp prev).0 ≡ some q)
          × ((tick_update i price timestamp prev).1
              ≡ update_candle (candle_at (chart_key i q.time) q) ∷ [])
          × (key_lt (chart_key i q.time) (chart_key i p.time) ≡ false))
unfolding merge_tick new_candle
tick_update-calls i price timestamp prev p n s e =
    rw
      (
        tick_update-last i price timestamp prev e,
        tick_after-bucket i price timestamp prev p n.0 (All-last IsSeconds p prev e s.in_seconds),
      )
      (elim (Bool-cases (ltb (tick_bucket i timestamp) (bucket i p.time))) [
        | inl old ↦ rw old (inl refl)
        | inr new ↦ rw new (elim (Bool-cases (bucket i p.time == tick_bucket i timestamp)) [
          | inl same ↦ rw same (
              inr (
                merge_tick price p,
                last-set_last p (merge_tick price p) prev e,
                refl,
                rw (key_lt-chart_key i p.time p.time h h) (ground arith),
              ))
          | inr other ↦ rw other (
              inr (
                new_candle i price timestamp,
                last-append prev (new_candle i price timestamp),
                rw (tick_key-new_time i timestamp n.0 n.1) refl,
                rw (key_lt-chart_key i (new_time i timestamp) p.time (new_time-lt i timestamp n) h)
                    (let q =
                        bucket-lt i p.time (new_time i timestamp)
                          (rw (bucket-new_time i timestamp n.0 n.1) (ground arith)) in
                      ground arith),
              ))
        ])
      ])
  where
    h : p.time < seconds_bound
    h = All-last IsSeconds p prev e s.in_seconds
