-- ===== src/Chart/Paging.antt =====
-- The pure parts of `loadMore` of price-chart.tsx: the earliest candle, the end date that is asked
-- for, and the merge of older candles into the series.
pub mod EndDate
pub mod Merge
pub mod Pages
pub mod Prepend
pub mod Asked
pub mod Growth
pub mod Minutes
use stock_anomoly_detection.Prelude.{
  ℕ, ◌+◌, ◌-◌, ◌*◌, ◌≡◌, refl, Bool, true, false, List, [], ◌∷◌, ◌++◌, ltb, ◌==◌, if◌then◌else◌,
}
use stock_anomoly_detection.Text.{Text, codes, decimal, pad_start}
use stock_anomoly_detection.Calendar.{
  get_utc_full_year, get_utc_month, get_utc_date, get_utc_hours, get_utc_minutes, get_utc_seconds,
  set_utc_date,
}
use stock_anomoly_detection.Keyed.{map_set_all, values, sort_by}
use stock_anomoly_detection.Chart.{
  OhlcvPoint, Interval, minute, day, week, month, to_ms, kst_offset,
}
use stock_anomoly_detection.Chart.Series.{flat}

-- `currentData.reduce((min, d) => (d.time < min.time ? d : min), min)`
unfoldable pub earliest_point : OhlcvPoint → List OhlcvPoint → OhlcvPoint
earliest_point least [] = least
earliest_point least (d ∷ ds) = earliest_point (if ltb d.time least.time then d else least) ds

abbrev pub padded : ℕ → Text
padded n = pad_start 2 b'0' (decimal n)

-- year, month and date of an instant, with no separator
unfoldable pub compact_date : ℕ → Text
compact_date ms =
    decimal (get_utc_full_year ms) ++ (padded (get_utc_month ms + 1) ++ padded (get_utc_date ms))

unfoldable pub compact_time : ℕ → Text
compact_time ms =
    padded (get_utc_hours ms) ++ (padded (get_utc_minutes ms) ++ padded (get_utc_seconds ms))

-- `endDateStr`, from the time of the earliest point; for "1m" that is seconds, from 60 on
unfoldable pub end_date : Interval → ℕ → Text
end_date minute time =
    let kst = (time - 60) * 1000 + kst_offset in compact_date kst ++ compact_time kst
end_date day time =
    let date = to_ms time + kst_offset in compact_date (set_utc_date date (get_utc_date date - 1))
end_date week time =
    let date = to_ms time + kst_offset in compact_date (set_utc_date date (get_utc_date date - 1))
end_date month time =
    let date = to_ms time + kst_offset in compact_date (set_utc_date date (get_utc_date date - 1))

-- `uniqueSorted`: one point for each time, a current point before a fetched one
unfoldable pub merge_older : List OhlcvPoint → List OhlcvPoint → List OhlcvPoint
merge_older more current =
    sort_by (λ (p : OhlcvPoint). p.time)
      (values (map_set_all ◌==◌ (λ p. p.time) (λ p. p) [] (more ++ current)))

-- the day before the first of March of a leap year
end_date_leap : end_date day 1709218800 ≡ codes "20240229"
unfolding end_date compact_date set_utc_date get_utc_full_year get_utc_month get_utc_date decimal
    pad_start to_ms
end_date_leap = refl

end_date_minute : end_date minute 1767193200 ≡ codes "20251231235900"
unfolding end_date compact_date compact_time get_utc_full_year get_utc_month get_utc_date decimal
    pad_start get_utc_hours get_utc_minutes get_utc_seconds
end_date_minute = refl

merge_older_example :
    merge_older (flat 60 1 ∷ flat 120 2 ∷ []) (flat 180 3 ∷ flat 120 9 ∷ [])
    ≡ flat 60 1 ∷ flat 120 9 ∷ flat 180 3 ∷ []
unfolding merge_older sort_by map_set_all
merge_older_example = refl
