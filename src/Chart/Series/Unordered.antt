-- ===== src/Chart/Series/Unordered.antt =====
-- The bars do not depend on the order in which the candles come.
use stock_anomoly_detection.Prelude.{◌≡◌, ap, ◌↔◌, ◌∙◌, List, [], ◌∷◌, map, All, Within, arith, ◌<◌}
use native.Mathlib.Decide.{dec_lt}
use stock_anomoly_detection.Keyed.{map_set_all, values}
use stock_anomoly_detection.Keyed.Put.{IsAscending, IsDistinct, put_all}
use stock_anomoly_detection.Keyed.Unique.{
  sort_by_unordered, sort_by_ascending, put_all_distinct, IsDistinct-of_IsAscending,
}
use stock_anomoly_detection.Chart.{OhlcvPoint, Interval, key_eq}
use stock_anomoly_detection.Chart.Series.{to_bar, chart_key, final_data}
use stock_anomoly_detection.Chart.Series.Order.{
  IsSeconds, point_rank, key_rank_mono, final_data-kept,
}

-- Points of different times give the same bars in whatever order they are handed over.
pub final_data_unordered :
    (i : Interval) (points others : List OhlcvPoint)
    → IsDistinct (λ (p : OhlcvPoint). p.time) points
    → IsDistinct (λ (p : OhlcvPoint). p.time) others
    → ((p : OhlcvPoint) → Within p points ↔ Within p others)
    → final_data i points ≡ final_data i others
unfolding final_data
final_data_unordered i points others d e same =
    ap (λ l. values (map_set_all key_eq (λ (p : OhlcvPoint). chart_key i p.time) (to_bar i) [] l))
      (sort_by_unordered (λ p. p.time) points others d e same)

-- a later key is a later time
time_lt_of_rank :
    (i : Interval) (p q : OhlcvPoint)
    → IsSeconds p
    → point_rank i p < point_rank i q
    → p.time < q.time
time_lt_of_rank i p q h lt = elim (dec_lt p.time q.time) [
  | yes later ↦ later
  | no not_later ↦ let le = key_rank_mono i q.time p.time (omega arith) h in absurd (omega arith)
]

times_ascend :
    (i : Interval) (l : List OhlcvPoint)
    → All IsSeconds l
    → IsAscending (point_rank i) l
    → IsAscending (λ (p : OhlcvPoint). p.time) l
times_ascend i [] h a = tt
times_ascend i (p ∷ ps) h a = (over ps a.0, times_ascend i ps h.1 a.1)
  where
    over :
        (l : List OhlcvPoint)
        → All (λ (q : OhlcvPoint). point_rank i p < point_rank i q) l
        → All (λ (q : OhlcvPoint). p.time < q.time) l
    over [] u = tt
    over (q ∷ l) u = (time_lt_of_rank i p q h.0 u.0, over l u.1)

-- points in ascending order of their keys become one bar each
pub final_data_ascending :
    (i : Interval) (points : List OhlcvPoint)
    → All IsSeconds points
    → IsAscending (point_rank i) points
    → final_data i points ≡ map (to_bar i) points
final_data_ascending i points h a =
    final_data-kept i points h
    ∙ ap (λ l. map (to_bar i) (put_all (point_rank i) [] l))
        (sort_by_ascending (λ p. p.time) points (times_ascend i points h a))
    ∙ ap (map (to_bar i))
        (put_all_distinct (point_rank i) points (IsDistinct-of_IsAscending (point_rank i) points a))
