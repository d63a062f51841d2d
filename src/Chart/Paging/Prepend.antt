-- ===== src/Chart/Paging/Prepend.antt =====
-- Older candles that all lie before the series go in front of it.
use stock_anomoly_detection.Prelude.{
  ℕ, ◌≤◌, ◌<◌, ◌≡◌, ap, ◌∙◌, List, [], ◌∷◌, ◌++◌, ltb, All, All-append, Bool-cases, inl, inr, arith,
}
use stock_anomoly_detection.Keyed.Put.{IsAscending}
use stock_anomoly_detection.Keyed.{sort_by}
use stock_anomoly_detection.Keyed.Unique.{
  IsDistinct-of_IsAscending, sort_by_ascending, put_all_distinct,
}
use stock_anomoly_detection.Chart.{OhlcvPoint, Interval, minute, day, week, month, seconds_bound}
use stock_anomoly_detection.Chart.Series.Order.{IsSeconds, kst_day_mono}
use stock_anomoly_detection.Chart.Ticks.Buckets.{bucket}
use stock_anomoly_detection.Chart.Ticks.Outcome.{IsCandle, IsSeries}
use stock_anomoly_detection.Chart.Paging.{merge_older}
use stock_anomoly_detection.Chart.Paging.Merge.{time_of, merge_older-unique}

-- a page of older candles: a series, each candle in a bucket before those of the current one
pub record IsPage (i : Interval) (current more : List OhlcvPoint) : Type 0 where
  pub series : IsSeries i more
  pub before :
      All
        (λ (p : OhlcvPoint). All (λ (q : OhlcvPoint). bucket i p.time < bucket i q.time) current)
        more

bucket_mono : (i : Interval) (s t : ℕ) → s ≤ t → t < seconds_bound → bucket i s ≤ bucket i t
bucket_mono minute s t le h = omega arith
bucket_mono day s t le h = kst_day_mono s t le h
bucket_mono week s t le h = kst_day_mono s t le h
bucket_mono month s t le h = kst_day_mono s t le h

earlier_bucket : (i : Interval) (s t : ℕ) → s < seconds_bound → bucket i s < bucket i t → s < t
earlier_bucket i s t h lt = elim (Bool-cases (ltb s t)) [
  | inl less ↦ ground arith
  | inr more ↦ let le = bucket_mono i t s (ground arith) h in absurd (omega arith)
]

times-IsAscending :
    (i : Interval) (l : List OhlcvPoint)
    → All IsSeconds l
    → IsAscending (λ (p : OhlcvPoint). bucket i p.time) l
    → IsAscending time_of l
times-IsAscending i [] s a = tt
times-IsAscending i (p ∷ l) s a = (over l a.0, times-IsAscending i l s.1 a.1)
  where
    over :
        (m : List OhlcvPoint)
        → All (λ (q : OhlcvPoint). bucket i p.time < bucket i q.time) m
        → All (λ (q : OhlcvPoint). p.time < q.time) m
    over [] u = tt
    over (q ∷ m) u = (earlier_bucket i p.time q.time s.0 u.0, over m u.1)

joined-IsAscending :
    (rank : OhlcvPoint → ℕ) (a b : List OhlcvPoint)
    → IsAscending rank a
    → IsAscending rank b
    → All (λ p. All (λ q. rank p < rank q) b) a
    → IsAscending rank (a ++ b)
joined-IsAscending rank [] b h k below = k
joined-IsAscending rank (p ∷ a) b h k below =
    (All-append (λ q. rank p < rank q) a b h.0 below.0, joined-IsAscending rank a b h.1 k below.1)

pub joined-IsSeries :
    (i : Interval) (more current : List OhlcvPoint)
    → IsPage i current more
    → IsSeries i current
    → IsSeries i (more ++ current)
joined-IsSeries i more current p s = record {
  ascending =
      joined-IsAscending (λ (r : OhlcvPoint). bucket i r.time) more current p.series.ascending
        s.ascending p.before;
  in_seconds = All-append IsSeconds more current p.series.in_seconds s.in_seconds;
  candles = All-append IsCandle more current p.series.candles s.candles;
}

-- The merge of a page of older candles, each before all current ones, is the page followed by the
-- current series, and is a series again.
pub merge_older-append :
    (i : Interval) (more current : List OhlcvPoint)
    → IsPage i current more
    → IsSeries i current
    → (merge_older more current ≡ more ++ current) × IsSeries i (merge_older more current)
merge_older-append i more current p s = (joins, rw joins joined)
  where
    joined : IsSeries i (more ++ current)
    joined = joined-IsSeries i more current p s

    ascends : IsAscending time_of (more ++ current)
    ascends = times-IsAscending i (more ++ current) joined.in_seconds joined.ascending

    joins : merge_older more current ≡ more ++ current
    joins =
        merge_older-unique more current
        ∙ ap (sort_by time_of) (
            put_all_distinct time_of (more ++ current)
              (IsDistinct-of_IsAscending time_of (more ++ current) ascends))
        ∙ sort_by_ascending time_of (more ++ current) ascends
