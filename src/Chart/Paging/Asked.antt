-- ===== src/Chart/Paging/Asked.antt =====
-- What the server answers to the end date of `loadMore` is a page of older candles.
use stock_anomoly_detection.Text.{text_lt}
use stock_anomoly_detection.Text.Decimal.{two_digits}
use stock_anomoly_detection.Text.Order.{text_lt-two_digits, text_lt_irrefl}
use stock_anomoly_detection.Calendar.{Civil, civil}
use stock_anomoly_detection.Calendar.Dates.{civil_lt, civil_lt-civil}
use stock_anomoly_detection.Prelude.{
  ℕ, ◌+◌, ◌/◌, ◌%◌, sym, ap, ◌∙◌, false, ltb, ◌-◌, ◌≤◌, ◌<◌, ◌≡◌, refl, true, List, [], ◌∷◌, All,
  arith,
}
use stock_anomoly_detection.Chart.{OhlcvPoint, Interval, minute, day, week, month, is_daily}
use stock_anomoly_detection.Chart.DateKey.{kst_day}
use stock_anomoly_detection.Chart.Series.Order.{IsSeconds}
use stock_anomoly_detection.Chart.Ticks.Buckets.{bucket}
use stock_anomoly_detection.Chart.Ticks.Outcome.{IsSeries}
use stock_anomoly_detection.Chart.Paging.{earliest_point, end_date}
use stock_anomoly_detection.Chart.Paging.EndDate.{Writes, end_date-before}
use stock_anomoly_detection.Chart.Paging.Prepend.{IsPage}

abbrev pub compact_text : Civil → List ℕ
compact_text c =
    two_digits (c.year / 100)
      (two_digits (c.year % 100) (two_digits (c.month + 1) (two_digits c.date [])))

text_lt-compact_text : (a b : Civil) → text_lt (compact_text a) (compact_text b) ≡ civil_lt a b
text_lt-compact_text a b = simp (text_lt-two_digits, text_lt_irrefl) (ground arith)

same_compact : (d e : ℕ) → compact_text (civil d) ≡ compact_text (civil e) → ltb d e ≡ false
same_compact d e same =
    sym (civil_lt-civil d e)
    ∙ sym (text_lt-compact_text (civil d) (civil e))
    ∙ ap (text_lt (compact_text (civil d))) (sym same)
    ∙ text_lt_irrefl (compact_text (civil d))

-- a text writes one day at most
pub Writes-unique : (d e : ℕ) (s : List ℕ) → Writes d s → Writes e s → d ≡ e
Writes-unique d e s w v =
    let a = same_compact d e (sym w ∙ v) in let b = same_compact e d (sym v ∙ w) in ground arith

-- a candle on the day that the text writes, or before
abbrev pub IsUpTo : List ℕ → OhlcvPoint → Type 0
IsUpTo text p = (d : ℕ) → Writes d text → kst_day p.time ≤ d

bucket-kst_day : (i : Interval) (t : ℕ) → is_daily i ≡ true → bucket i t ≡ kst_day t
bucket-kst_day minute t h = absurd (ground arith)
bucket-kst_day day t h = refl
bucket-kst_day week t h = refl
bucket-kst_day month t h = refl

module _ (i : Interval) (daily : is_daily i ≡ true) where
  earlier :
      (last_asked : ℕ) (p : OhlcvPoint) (l : List OhlcvPoint)
      → kst_day p.time ≤ last_asked
      → All (λ (q : OhlcvPoint). last_asked < kst_day q.time) l
      → All (λ (q : OhlcvPoint). bucket i p.time < bucket i q.time) l
  earlier last_asked p [] le h = tt
  earlier last_asked p (q ∷ l) le h = (
    rw (bucket-kst_day i p.time daily, bucket-kst_day i q.time daily) (let h0 = h.0 in omega arith),
    earlier last_asked p l le h.1,
  )

  all_earlier :
      (last_asked : ℕ) (text : List ℕ) (more l : List OhlcvPoint)
      → Writes last_asked text
      → All (IsUpTo text) more
      → All (λ (q : OhlcvPoint). last_asked < kst_day q.time) l
      → All (λ (p : OhlcvPoint). All (λ (q : OhlcvPoint). bucket i p.time < bucket i q.time) l) more
  all_earlier last_asked text [] l w u h = tt
  all_earlier last_asked text (p ∷ more) l w u h =
      (earlier last_asked p l (u.0 last_asked w) h, all_earlier last_asked text more l w u.1 h)

  -- On every interval but "1m", where the series, in any order, has candles from 1970-01-02 on, and the
  -- server answers its end date with a series of candles up to the day that the end date writes, the answer
  -- is a page: each of its candles is on a day before all candles at hand.
  pub end_date-IsPage :
      (least : OhlcvPoint) (ds more : List OhlcvPoint)
      → All (λ (d : OhlcvPoint). 86400 ≤ d.time) (least ∷ ds)
      → All IsSeconds (least ∷ ds)
      → IsSeries i more
      → All (IsUpTo (end_date i (earliest_point least ds).time)) more
      → IsPage i (least ∷ ds) more
  end_date-IsPage least ds more from secs s upto =
      let before = end_date-before i least ds daily from secs in
      record {
        series = s;
        before =
            all_earlier (kst_day (earliest_point least ds).time - 1)
              (end_date i (earliest_point least ds).time) more (least ∷ ds) before.0 upto before.1;
      }
