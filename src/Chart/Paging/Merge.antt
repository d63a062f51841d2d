-- ===== src/Chart/Paging/Merge.antt =====
-- What the merge of older candles keeps.
use stock_anomoly_detection.Prelude.{
  ℕ, ◌≤◌, ◌<◌, ◌≡◌, refl, ◌∙◌, ◌≢◌, ap, List, [], ◌∷◌, ◌++◌, map, ◌==◌, none, All, All-append,
  arith, length,
}
use stock_anomoly_detection.Keyed.{sort_by}
use stock_anomoly_detection.Keyed.Put.{
  put_all, put_all-All, put_all-IsDistinct, find, find_last, find-put_all_nil, find_last-append,
  or_else, IsAscending, IsDistinct, values-map_set_all,
}
use stock_anomoly_detection.Keyed.Sort.{
  sort_by-All, sort_by-IsAscending, find-sort_by, length-sort_by,
}
use stock_anomoly_detection.Keyed.Count.{
  length-le_of_Covers, find_last-All, find-ne_none, find_last-none, All-to,
}
use stock_anomoly_detection.Chart.{OhlcvPoint}
use stock_anomoly_detection.Chart.Paging.{merge_older}

abbrev pub time_of : OhlcvPoint → ℕ
time_of p = p.time

always : (l : List OhlcvPoint) → All (λ (p : OhlcvPoint). Unit {0}) l
always [] = tt
always (p ∷ ps) = (tt, always ps)

map-id : (l : List OhlcvPoint) → map (λ p. p) l ≡ l
map-id [] = refl
map-id (p ∷ ps) = ap (◌∷◌ p) (map-id ps)

abbrev unique : List OhlcvPoint → List OhlcvPoint → List OhlcvPoint
unique more current = put_all time_of [] (more ++ current)

pub merge_older-unique :
    (more current : List OhlcvPoint)
    → merge_older more current ≡ sort_by time_of (unique more current)
unfolding merge_older
merge_older-unique more current =
    let all = more ++ current in
    ap (sort_by time_of) (
      values-map_set_all time_of ◌==◌ time_of (λ p. p) (λ p. Unit {0}) (λ a b pa pb. refl) all
        (always all)
      ∙ map-id (put_all time_of [] all))

unique-IsDistinct : (more current : List OhlcvPoint) → IsDistinct time_of (unique more current)
unique-IsDistinct more current = put_all-IsDistinct time_of [] (more ++ current) tt

-- what holds of all points fetched and of all at hand holds of the merged ones
pub merge_older-All :
    (P : OhlcvPoint → Type 0) (more current : List OhlcvPoint)
    → All P more
    → All P current
    → All P (merge_older more current)
merge_older-All P more current h k = rw (merge_older-unique more current) (
    sort_by-All time_of P (unique more current)
      (put_all-All time_of P [] (more ++ current) tt (All-append P more current h k)))

find-merge_older :
    (more current : List OhlcvPoint) (t : ℕ)
    → find time_of t (merge_older more current)
      ≡ or_else time_of (find_last time_of t current) (find_last time_of t more)
find-merge_older more current t = rw (
  merge_older-unique more current,
  find-sort_by time_of t (unique more current) (unique-IsDistinct more current),
  find-put_all_nil time_of t (more ++ current),
  find_last-append time_of t more current,
)

-- The merged series is in strictly ascending time. At each time it holds the last current point of
-- that time, or, where there is none, the last fetched one, and nothing where there is neither.
pub merge_older_lem :
    (more current : List OhlcvPoint)
    → IsAscending time_of (merge_older more current)
      × ((t : ℕ)
          → find time_of t (merge_older more current)
            ≡ or_else time_of (find_last time_of t current) (find_last time_of t more))
merge_older_lem more current = (
  rw (merge_older-unique more current)
      (sort_by-IsAscending time_of (unique more current) (unique-IsDistinct more current)),
  find-merge_older more current,
)

-- Where every time fetched is at hand already, the merged series is no longer than the current one,
-- of different times.
pub merge_older_known :
    (more current : List OhlcvPoint)
    → IsDistinct time_of current
    → All (λ (p : OhlcvPoint). find_last time_of p.time current ≢ none) more
    → length (merge_older more current) ≤ length current
merge_older_known more current d known =
    rw (merge_older-unique more current, length-sort_by time_of (unique more current))
      (length-le_of_Covers time_of (unique more current) current (unique-IsDistinct more current) (
        put_all-All time_of Has [] (more ++ current) tt (
          All-append Has more current (All-to time_of HasLast Has has more known)
            (All-to time_of HasLast Has has current (find_last-All time_of current)))))
  where
    HasLast : OhlcvPoint → Type 0
    HasLast p = find_last time_of p.time current ≢ none

    Has : OhlcvPoint → Type 0
    Has p = find time_of p.time current ≢ none

    has : (p : OhlcvPoint) → HasLast p → Has p
    has p h = find-ne_none time_of p.time current h

-- Where some time was fetched that the current series, of different times, does not have, the
-- merged series is longer.
pub merge_older_grows :
    (more current : List OhlcvPoint) (p : OhlcvPoint)
    → IsDistinct time_of current
    → find_last time_of p.time more ≢ none
    → find_last time_of p.time current ≡ none
    → length current < length (merge_older more current)
merge_older_grows more current p d fetched absent =
    length-le_of_Covers time_of (p ∷ current) (merge_older more current)
      (find_last-none time_of p.time current absent, d)
      (
        rw (find-merge_older more current p.time, absent) fetched,
        All-to time_of HasLast Merged merged current (find_last-All time_of current),
      )
  where
    HasLast : OhlcvPoint → Type 0
    HasLast p = find_last time_of p.time current ≢ none

    Merged : OhlcvPoint → Type 0
    Merged p = find time_of p.time (merge_older more current) ≢ none

    merged : (p : OhlcvPoint) → HasLast p → Merged p
    merged p h = rw (find-merge_older more current p.time) (ground arith)
