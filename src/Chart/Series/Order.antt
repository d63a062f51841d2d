-- ===== src/Chart/Series/Order.antt =====
-- The bars handed to the chart library are strictly ascending in time, as it requires.
use stock_anomoly_detection.Prelude.{
  ℕ, ◌≤◌, ◌<◌, ◌≡◌, refl, true, List, [], ◌∷◌, map, ltb, ◌==◌, All, arith, lt→ltb,
}
use stock_anomoly_detection.Calendar.Blocks.{last_day}
use stock_anomoly_detection.Keyed.{sort_by}
use stock_anomoly_detection.Keyed.Put.{put_all, put_all-All, IsAscending, values-map_set_all}
use stock_anomoly_detection.Keyed.Sort.{
  IsSorted, sort_by-All, sort_by-IsSorted, put_all-IsAscending,
}
use stock_anomoly_detection.Chart.{
  OhlcvPoint, Interval, minute, day, week, month, key_eq, key_lt, seconds_bound, to_ms,
}
use stock_anomoly_detection.Chart.DateKey.{
  kst_day, text_lt-get_kst_date_string, text_eq-get_kst_date_string,
}
use stock_anomoly_detection.Chart.Series.{Bar, chart_key, to_bar, final_data}

-- A time of a point, in seconds.
abbrev pub IsSeconds : OhlcvPoint → Type 0
IsSeconds p = p.time < seconds_bound

-- the number that orders the keys of an interval
abbrev pub key_rank : Interval → ℕ → ℕ
key_rank minute t = t
key_rank day t = kst_day t
key_rank week t = kst_day t
key_rank month t = kst_day t

pub kst_day-lt : (t : ℕ) → t < seconds_bound → kst_day t < last_day
unfolding to_ms
kst_day-lt t h = ground arith

pub kst_day_mono : (s t : ℕ) → s ≤ t → t < seconds_bound → kst_day s ≤ kst_day t
unfolding to_ms
kst_day_mono s t le h = ground arith

pub key_rank_mono :
    (i : Interval) (s t : ℕ) → s ≤ t → t < seconds_bound → key_rank i s ≤ key_rank i t
key_rank_mono minute s t le h = le
key_rank_mono day s t le h = kst_day_mono s t le h
key_rank_mono week s t le h = kst_day_mono s t le h
key_rank_mono month s t le h = kst_day_mono s t le h

pub key_lt-chart_key :
    (i : Interval) (s t : ℕ)
    → s < seconds_bound
    → t < seconds_bound
    → key_lt (chart_key i s) (chart_key i t) ≡ ltb (key_rank i s) (key_rank i t)
unfolding key_lt chart_key
key_lt-chart_key minute s t hs ht = refl
key_lt-chart_key day s t hs ht = text_lt-get_kst_date_string s t (kst_day-lt s hs) (kst_day-lt t ht)
key_lt-chart_key week s t hs ht =
    text_lt-get_kst_date_string s t (kst_day-lt s hs) (kst_day-lt t ht)
key_lt-chart_key month s t hs ht =
    text_lt-get_kst_date_string s t (kst_day-lt s hs) (kst_day-lt t ht)

pub key_eq-chart_key :
    (i : Interval) (s t : ℕ)
    → s < seconds_bound
    → t < seconds_bound
    → key_eq (chart_key i s) (chart_key i t) ≡ (key_rank i s == key_rank i t)
unfolding key_eq chart_key
key_eq-chart_key minute s t hs ht = refl
key_eq-chart_key day s t hs ht = text_eq-get_kst_date_string s t (kst_day-lt s hs) (kst_day-lt t ht)
key_eq-chart_key week s t hs ht =
    text_eq-get_kst_date_string s t (kst_day-lt s hs) (kst_day-lt t ht)
key_eq-chart_key month s t hs ht =
    text_eq-get_kst_date_string s t (kst_day-lt s hs) (kst_day-lt t ht)

abbrev pub point_rank : Interval → OhlcvPoint → ℕ
point_rank i p = key_rank i p.time

-- each bar's time is before that of every later bar
abbrev pub AscendingBars : List Bar → Type 0
AscendingBars [] = Unit
AscendingBars (b ∷ bs) = All (λ (c : Bar). key_lt b.time c.time ≡ true) bs × AscendingBars bs

module _ (i : Interval) where
  point_rank-IsSorted :
      (l : List OhlcvPoint) → All IsSeconds l → IsSorted (λ p. p.time) l → IsSorted (point_rank i) l
  point_rank-IsSorted [] h s = tt
  point_rank-IsSorted (p ∷ ps) h s = (over ps h.1 s.0, point_rank-IsSorted ps h.1 s.1)
    where
      over :
          (l : List OhlcvPoint)
          → All IsSeconds l
          → All (λ (q : OhlcvPoint). p.time ≤ q.time) l
          → All (λ (q : OhlcvPoint). point_rank i p ≤ point_rank i q) l
      over [] u v = tt
      over (q ∷ l) u v = (key_rank_mono i p.time q.time v.0 u.0, over l u.1 v.1)

  bars_ascend :
      (l : List OhlcvPoint)
      → All IsSeconds l
      → IsAscending (point_rank i) l
      → AscendingBars (map (to_bar i) l)
  unfolding to_bar
  bars_ascend [] h a = tt
  bars_ascend (p ∷ ps) h a = (over ps h.1 a.0, bars_ascend ps h.1 a.1)
    where
      over :
          (l : List OhlcvPoint)
          → All IsSeconds l
          → All (λ (q : OhlcvPoint). point_rank i p < point_rank i q) l
          → All (λ (c : Bar). key_lt (chart_key i p.time) c.time ≡ true) (map (to_bar i) l)
      over [] u v = tt
      over (q ∷ l) u v =
          (rw (key_lt-chart_key i p.time q.time h.0 u.0) (lt→ltb _ _ v.0), over l u.1 v.1)

  -- the points whose bars the chart gets
  abbrev pub kept : List OhlcvPoint → List OhlcvPoint
  kept points = put_all (point_rank i) [] (sort_by (λ (p : OhlcvPoint). p.time) points)

  pub final_data-kept :
      (points : List OhlcvPoint)
      → All IsSeconds points
      → final_data i points ≡ map (to_bar i) (kept points)
  unfolding final_data
  final_data-kept points h =
      values-map_set_all (point_rank i) key_eq (λ p. chart_key i p.time) (to_bar i) IsSeconds
        (λ a b pa pb. key_eq-chart_key i a.time b.time pa pb)
        (sort_by (λ (p : OhlcvPoint). p.time) points) (sort_by-All (λ p. p.time) IsSeconds points h)

  empty_below : (l : List OhlcvPoint) → All (λ (p : OhlcvPoint). Unit {0}) l
  empty_below [] = tt
  empty_below (p ∷ ps) = (tt, empty_below ps)

  -- The bars given to the chart are in strictly ascending order of their time keys, whatever the order
  -- of the candles and however often a key occurs among them, if their times are in seconds.
  pub final_data-AscendingBars :
      (points : List OhlcvPoint) → All IsSeconds points → AscendingBars (final_data i points)
  final_data-AscendingBars points h =
      let sorted = sort_by (λ (p : OhlcvPoint). p.time) points in
      let secs = sort_by-All (λ p. p.time) IsSeconds points h in
      rw (final_data-kept points h) (
        bars_ascend (kept points) (put_all-All (point_rank i) IsSeconds [] sorted tt secs) (
          put_all-IsAscending (point_rank i) [] sorted tt
            (point_rank-IsSorted sorted secs (sort_by-IsSorted (λ p. p.time) points))
            (empty_below sorted)))
