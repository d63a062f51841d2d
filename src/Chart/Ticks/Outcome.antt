-- ===== src/Chart/Ticks/Outcome.antt =====
-- What a tick does, by the bucket it falls in, and what is kept.
use stock_anomoly_detection.Prelude.{
  ℕ, ◌≤◌, ◌<◌, ◌≡◌, refl, List, [], ◌∷◌, ◌++◌, some, last, ltb, ◌==◌, if◌then◌else◌, All,
  All-append, arith,
}
use stock_anomoly_detection.Keyed.Put.{IsAscending}
use stock_anomoly_detection.Chart.{OhlcvPoint, Interval, seconds_bound}
use stock_anomoly_detection.Chart.Series.{update_candle, chart_key}
use stock_anomoly_detection.Chart.Series.Order.{IsSeconds}
use stock_anomoly_detection.Chart.Ticks.{
  tick_key, set_last, merge_tick, new_candle, candle_at, tick_after, tick_update,
}
use stock_anomoly_detection.Chart.Ticks.Buckets.{
  IsClock, tick_bucket, bucket, key_lt-tick_key, key_eq-tick_key, last_time_key-chart_key,
}

-- the opening and closing prices lie between the low and the high
pub record IsCandle (p : OhlcvPoint) : Type 0 where
  pub low-opening : p.low ≤ p.opening
  pub opening-high : p.opening ≤ p.high
  pub low-close : p.low ≤ p.close
  pub close-high : p.close ≤ p.high

-- Candles in strictly ascending buckets, with times in seconds.
pub record IsSeries (i : Interval) (points : List OhlcvPoint) : Type 0 where
  pub ascending : IsAscending (λ p. bucket i p.time) points
  pub in_seconds : All IsSeconds points
  pub candles : All IsCandle points

pub merge_tick-IsCandle : (price : ℕ) (p : OhlcvPoint) → IsCandle p → IsCandle (merge_tick price p)
unfolding merge_tick
merge_tick-IsCandle price p c = omega arith

pub new_candle-IsCandle :
    (i : Interval) (price timestamp : ℕ) → IsCandle (new_candle i price timestamp)
unfolding new_candle
new_candle-IsCandle i price timestamp = omega arith

pub set_last-All :
    (P : OhlcvPoint → Type 0) (q : OhlcvPoint) (m : List OhlcvPoint)
    → P q
    → All P m
    → All P (set_last q m)
unfolding set_last
set_last-All P q [] pq h = tt
set_last-All P q (x ∷ []) pq h = (pq, tt)
set_last-All P q (x ∷ y ∷ m) pq h = (h.0, set_last-All P q (y ∷ m) pq h.1)

pub All-last :
    (P : OhlcvPoint → Type 0) (p : OhlcvPoint) (m : List OhlcvPoint)
    → last m ≡ some p
    → All P m
    → P p
All-last P p [] e h = absurd (ground arith)
All-last P p (x ∷ []) e h = let e' : x ≡ p = ground arith in rw (← e') h.0
All-last P p (x ∷ y ∷ m) e h = All-last P p (y ∷ m) e h.1

pub last-set_last :
    (p q : OhlcvPoint) (m : List OhlcvPoint) → last m ≡ some p → last (set_last q m) ≡ some q
unfolding set_last
last-set_last p q [] e = cc
last-set_last p q (x ∷ []) e = refl
last-set_last p q (x ∷ y ∷ []) e = refl
last-set_last p q (x ∷ y ∷ z ∷ m) e = last-set_last p q (y ∷ z ∷ m) e

module _ (rank : OhlcvPoint → ℕ) where
  pub below_last :
      (p : OhlcvPoint) (m : List OhlcvPoint)
      → last m ≡ some p
      → IsAscending rank m
      → All (λ y. rank y ≤ rank p) m
  below_last p [] e h = tt
  below_last p (x ∷ []) e h = let e' : x ≡ p = ground arith in (rw e' (omega arith), tt)
  below_last p (x ∷ y ∷ m) e h =
      let above = All-last (λ z. rank x < rank z) p (y ∷ m) e h.0 in
      (omega arith, below_last p (y ∷ m) e h.1)

  pub append-IsAscending :
      (q : OhlcvPoint) (m : List OhlcvPoint)
      → All (λ y. rank y < rank q) m
      → IsAscending rank m
      → IsAscending rank (m ++ q ∷ [])
  append-IsAscending q [] b h = (tt, tt)
  append-IsAscending q (x ∷ m) b h =
      (All-append (λ y. rank x < rank y) m (q ∷ []) h.0 (b.0, tt), append-IsAscending q m b.1 h.1)

  pub weaken :
      (a b : ℕ) (m : List OhlcvPoint) → a < b → All (λ y. rank y ≤ a) m → All (λ y. rank y < b) m
  weaken a b [] lt h = tt
  weaken a b (x ∷ m) lt h = (let h0 = h.0 in omega arith, weaken a b m lt h.1)

  pub set_last-IsAscending :
      (p q : OhlcvPoint) (m : List OhlcvPoint)
      → last m ≡ some p
      → rank q ≡ rank p
      → IsAscending rank m
      → IsAscending rank (set_last q m)
  unfolding set_last
  set_last-IsAscending p q [] e r h = tt
  set_last-IsAscending p q (x ∷ []) e r h = (tt, tt)
  set_last-IsAscending p q (x ∷ y ∷ m) e r h =
      let above = All-last (λ z. rank x < rank z) p (y ∷ m) e h.0 in
      (
        set_last-All (λ z. rank x < rank z) q (y ∷ m) (omega arith) h.0,
        set_last-IsAscending p q (y ∷ m) e r h.1,
      )

-- A tick before the last candle's bucket is dropped, one inside it only moves that candle's high,
-- low and close, and a later one appends a candle.
pub tick_after-bucket :
    (i : Interval) (price timestamp : ℕ) (prev : List OhlcvPoint) (p : OhlcvPoint)
    → IsClock timestamp
    → p.time < seconds_bound
    → tick_after i price timestamp prev p ≡ (
        if ltb (tick_bucket i timestamp) (bucket i p.time)
        then (prev, [])
        else if bucket i p.time == tick_bucket i timestamp
        then (
          set_last (merge_tick price p) prev,
          update_candle (candle_at (chart_key i p.time) (merge_tick price p)) ∷ [],
        )
        else (
          prev ++ new_candle i price timestamp ∷ [],
          update_candle (candle_at (tick_key i timestamp) (new_candle i price timestamp)) ∷ [],
        ))
unfolding tick_after
tick_after-bucket i price timestamp prev p c h = rw (
  key_lt-tick_key i timestamp p c h,
  key_eq-tick_key i timestamp p c h,
  last_time_key-chart_key i p,
)

pub tick_update-last :
    (i : Interval) (price timestamp : ℕ) (prev : List OhlcvPoint) {p : OhlcvPoint}
    → last prev ≡ some p
    → tick_update i price timestamp prev ≡ tick_after i price timestamp prev p
unfolding tick_update
tick_update-last i price timestamp prev e = rw (e, tick_update)
