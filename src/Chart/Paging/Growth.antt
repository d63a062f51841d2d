-- ===== src/Chart/Paging/Growth.antt =====
-- The test by which `loadMore` tells new candles from known ones.
use stock_anomoly_detection.Prelude.{
  ◌<◌, ◌≡◌, ◌≢◌, refl, sym, ◌∙◌, ◌↔◌, ◌⊎◌, inl, inr, List, [], ◌∷◌, none, length, All, Within,
  All-within, Option-cases, arith,
}
use stock_anomoly_detection.Keyed.Put.{IsDistinct, find_last}
use stock_anomoly_detection.Keyed.Count.{find_last-All}
use stock_anomoly_detection.Chart.{OhlcvPoint}
use stock_anomoly_detection.Chart.Paging.{merge_older}
use stock_anomoly_detection.Chart.Paging.Merge.{time_of, merge_older_known, merge_older_grows}

abbrev pub IsKnown : List OhlcvPoint → OhlcvPoint → Type 0
IsKnown current p = find_last time_of p.time current ≢ none

-- a fetched candle of a new time
abbrev pub NewIn : List OhlcvPoint → List OhlcvPoint → Type 0
NewIn more current = (p : OhlcvPoint) × Within p more × (find_last time_of p.time current ≡ none)

every_or_one : (current more : List OhlcvPoint) → All (IsKnown current) more ⊎ NewIn more current
every_or_one current [] = inl tt
every_or_one current (m ∷ more) = elim (Option-cases (find_last time_of m.time current)) [
  | inl absent ↦ inr (m, inl refl, absent)
  | inr (q, there) ↦ elim (every_or_one current more) [
    | inl known ↦ inl (λ e. absurd (let both = sym there ∙ e in ground arith), known)
    | inr (p, w, absent) ↦ inr (p, inr w, absent)
  ]
]

-- The merged series is longer than the current one, of different times, exactly when the answer has a
-- candle of a time that the current one does not have.
pub length-merge_older :
    (more current : List OhlcvPoint)
    → IsDistinct time_of current
    → (length current < length (merge_older more current)) ↔ NewIn more current
length-merge_older more current d = (from, to)
  where
    from : length current < length (merge_older more current) → NewIn more current
    from longer = elim (every_or_one current more) [
      | inl known ↦ absurd (omega (arith, merge_older_known more current d known))
      | inr new ↦ new
    ]

    to : NewIn more current → length current < length (merge_older more current)
    to (p, w, absent) =
        merge_older_grows more current p d
          (All-within (λ (q : OhlcvPoint). find_last time_of q.time more ≢ none) p more
            (find_last-All time_of more) w)
          absent
