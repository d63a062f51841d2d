-- ===== src/Chart/Ticks/Totals.antt =====
-- Several live prices in one bucket.
use stock_anomoly_detection.Prelude.{
  ℕ, ◌<◌, ◌≡◌, refl, sym, ap, List, [], ◌∷◌, some, last, min, max, All, arith,
}
use stock_anomoly_detection.Chart.{OhlcvPoint, Interval, seconds_bound}
use stock_anomoly_detection.Chart.Ticks.{
  PendingTick, set_last, merge_tick, tick_update, apply_ticks,
}
use stock_anomoly_detection.Chart.Ticks.Buckets.{IsClock, tick_bucket, bucket}
use stock_anomoly_detection.Chart.Ticks.Outcome.{last-set_last, tick_after-bucket, tick_update-last}

-- the highest of `h` and the prices
pub highest : ℕ → List PendingTick → ℕ
highest h [] = h
highest h (t ∷ ts) = max t.price (highest h ts)

pub lowest : ℕ → List PendingTick → ℕ
lowest l [] = l
lowest l (t ∷ ts) = min t.price (lowest l ts)

-- the last price, or `c`
pub final_price : ℕ → List PendingTick → ℕ
final_price c [] = c
final_price c (t ∷ ts) = final_price t.price ts

-- the candle of all prices, its opening, time and volume those of `p`
abbrev pub total : OhlcvPoint → List PendingTick → OhlcvPoint
total p ts = record p {
  high = highest p.high ts;
  low = lowest p.low ts;
  close = final_price p.close ts;
}

highest-max : (h a : ℕ) (ts : List PendingTick) → highest (max h a) ts ≡ max a (highest h ts)
unfolding highest
highest-max h a [] = omega arith
highest-max h a (t ∷ ts) = omega (arith, highest-max h a ts)

lowest-min : (l a : ℕ) (ts : List PendingTick) → lowest (min l a) ts ≡ min a (lowest l ts)
unfolding lowest
lowest-min l a [] = omega arith
lowest-min l a (t ∷ ts) = omega (arith, lowest-min l a ts)

total-merge_tick :
    (p : OhlcvPoint) (t : PendingTick) (ts : List PendingTick)
    → total (merge_tick t.price p) ts ≡ total p (t ∷ ts)
unfolding merge_tick highest lowest final_price
total-merge_tick p t ts = rw (highest-max p.high t.price ts, lowest-min p.low t.price ts)

set_last-set_last :
    (q r : OhlcvPoint) (m : List OhlcvPoint) → set_last q (set_last r m) ≡ set_last q m
unfolding set_last
set_last-set_last q r [] = refl
set_last-set_last q r (x ∷ []) = refl
set_last-set_last q r (x ∷ y ∷ []) = refl
set_last-set_last q r (x ∷ y ∷ z ∷ m) = ap (◌∷◌ x) (set_last-set_last q r (y ∷ z ∷ m))

set_last_self : (p : OhlcvPoint) (m : List OhlcvPoint) → last m ≡ some p → set_last p m ≡ m
unfolding set_last
set_last_self p [] e = refl
set_last_self p (x ∷ []) e = ground arith
set_last_self p (x ∷ y ∷ m) e = ap (◌∷◌ x) (set_last_self p (y ∷ m) e)

-- a tick of the bucket that `p` lies in
abbrev pub IsInside : Interval → OhlcvPoint → PendingTick → Type 0
IsInside i p t = IsClock t.timestamp × (tick_bucket i t.timestamp ≡ bucket i p.time)

tick_update_inside :
    (i : Interval) (t : PendingTick) (prev : List OhlcvPoint) (p : OhlcvPoint)
    → IsInside i p t
    → p.time < seconds_bound
    → last prev ≡ some p
    → (tick_update i t.price t.timestamp prev).0 ≡ set_last (merge_tick t.price p) prev
tick_update_inside i t prev p inside h e =
    let same = inside.1 in
    rw
      (
        tick_update-last i t.price t.timestamp prev e,
        tick_after-bucket i t.price t.timestamp prev p inside.0 h,
      )
      (ground arith)

-- Any number of live prices in the last candle's bucket leave the earlier candles and make the
-- last one the candle of them all: the highest and lowest price, and the last one as its close.
pub apply_ticks-total :
    (i : Interval) (ts : List PendingTick) (prev : List OhlcvPoint) (p : OhlcvPoint)
    → p.time < seconds_bound
    → last prev ≡ some p
    → All (IsInside i p) ts
    → (apply_ticks i ts prev).0 ≡ set_last (total p ts) prev
unfolding apply_ticks highest lowest final_price merge_tick
apply_ticks-total i [] prev p h e inside = sym (set_last_self p prev e)
apply_ticks-total i (t ∷ ts) prev p h e inside =
    let q = merge_tick t.price p in
    rw (
      tick_update_inside i t prev p inside.0 h e,
      apply_ticks-total i ts (set_last q prev) q h (last-set_last p q prev e) inside.1,
      set_last-set_last (total q ts) q prev,
      total-merge_tick p t ts,
    )
