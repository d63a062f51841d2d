-- ===== src/Chart/Paging/Pages.antt =====
-- Older candles that come in several pages, and in any order.
use stock_anomoly_detection.Prelude.{ℕ, ◌≡◌, sym, ap, ◌∙◌, ◌↔◌, List, ◌++◌, Within, arith}
use stock_anomoly_detection.Keyed.Put.{
  find_last, find_last-append, or_else, IsAscending, IsDistinct,
}
use stock_anomoly_detection.Keyed.Unique.{
  ascending_ext, find_last-IsDistinct, IsDistinct-of_IsAscending, find-same_elements,
}
use stock_anomoly_detection.Chart.{OhlcvPoint}
use stock_anomoly_detection.Chart.Paging.{merge_older}
use stock_anomoly_detection.Chart.Paging.Merge.{time_of, merge_older_lem}

merged-IsAscending :
    (more current : List OhlcvPoint) → IsAscending time_of (merge_older more current)
merged-IsAscending more current = (merge_older_lem more current).0

pub merged-IsDistinct :
    (more current : List OhlcvPoint) → IsDistinct time_of (merge_older more current)
merged-IsDistinct more current =
    IsDistinct-of_IsAscending time_of (merge_older more current) (merged-IsAscending more current)

pub find_last-merge_older :
    (more current : List OhlcvPoint) (t : ℕ)
    → find_last time_of t (merge_older more current)
      ≡ or_else time_of (find_last time_of t current) (find_last time_of t more)
find_last-merge_older more current t =
    find_last-IsDistinct time_of t (merge_older more current) (merged-IsDistinct more current)
    ∙ (merge_older_lem more current).1 t

-- two merges are one series if they hold the same candle at each time
merged_ext :
    (a b c d : List OhlcvPoint)
    → ((t : ℕ)
        → or_else time_of (find_last time_of t b) (find_last time_of t a)
          ≡ or_else time_of (find_last time_of t d) (find_last time_of t c))
    → merge_older a b ≡ merge_older c d
merged_ext a b c d h =
    ascending_ext time_of (merge_older a b) (merge_older c d) (merged-IsAscending a b)
      (merged-IsAscending c d)
      λ t. (merge_older_lem a b).1 t ∙ h t ∙ sym ((merge_older_lem c d).1 t)

-- Loading a page and then an older one gives the series that one answer with both would have given.
pub merge_older-merge_older :
    (older page current : List OhlcvPoint)
    → merge_older older (merge_older page current) ≡ merge_older (older ++ page) current
merge_older-merge_older older page current =
    merged_ext older (merge_older page current) (older ++ page) current λ t.
      rw (find_last-merge_older page current t, find_last-append time_of t older page)
        (ground arith)

-- The order of the candles in an answer, of different times, does not matter: answers with the same
-- candles merge to the same series.
pub merge_older_unordered :
    (more other current : List OhlcvPoint)
    → IsDistinct time_of more
    → IsDistinct time_of other
    → ((p : OhlcvPoint) → Within p more ↔ Within p other)
    → merge_older more current ≡ merge_older other current
merge_older_unordered more other current d e same = merged_ext more current other current λ t.
    ap (or_else time_of (find_last time_of t current)) (
      find_last-IsDistinct time_of t more d
      ∙ find-same_elements time_of more other d e same t
      ∙ sym (find_last-IsDistinct time_of t other e))
