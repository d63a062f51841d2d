-- ===== src/Chart/Paging/Minutes.antt =====
-- The end date of minutes, and the page that it asks for on every interval.
use stock_anomoly_detection.Prelude.{
  ℕ, ◌+◌, ◌-◌, ◌*◌, ◌/◌, ◌%◌, ◌≤◌, ◌<◌, ◌≡◌, refl, sym, ap, ◌∙◌, List, [], ◌∷◌, ◌++◌, take, All,
  All-within, arith,
}
use stock_anomoly_detection.Text.Decimal.{two_digits, pad_start-decimal}
use stock_anomoly_detection.Calendar.{
  civil, ms_per_day, get_utc_hours, get_utc_minutes, get_utc_seconds,
}
use stock_anomoly_detection.Chart.{
  OhlcvPoint, Interval, minute, day, week, month, kst_offset, seconds_bound,
}
use stock_anomoly_detection.Chart.Series.Order.{IsSeconds}
use stock_anomoly_detection.Chart.Ticks.Buckets.{bucket}
use stock_anomoly_detection.Chart.Ticks.Outcome.{IsSeries}
use stock_anomoly_detection.Chart.Paging.{earliest_point, compact_date, compact_time, end_date}
use stock_anomoly_detection.Chart.Paging.EndDate.{
  Writes, compact_date-Writes, earliest_point-least, earliest_point-Within,
}
use stock_anomoly_detection.Chart.Paging.Prepend.{IsPage}
use stock_anomoly_detection.Chart.Paging.Asked.{
  compact_text, Writes-unique, IsUpTo, end_date-IsPage,
}

-- hours, minutes and seconds of a number of seconds
abbrev time_text : ℕ → List ℕ
time_text n = two_digits (n / 3600 % 24) (two_digits (n / 60 % 60) (two_digits (n % 60) []))

-- `s` writes the clock in Seoul, `n` seconds after 1970-01-01 00:00 there, in fourteen digits.
abbrev pub WritesTime : ℕ → List ℕ → Type 0
WritesTime n s = s ≡ compact_text (civil (n / 86400)) ++ time_text n

compact_time-text : (n : ℕ) → compact_time (n * 1000) ≡ time_text n
unfolding compact_time get_utc_hours get_utc_minutes get_utc_seconds
compact_time-text n =
    let h : n * 1000 / 3600000 ≡ n / 3600 = omega arith in
    let m : n * 1000 / 60000 ≡ n / 60 = omega arith in
    let s : n * 1000 / 1000 ≡ n = omega arith in
    rw (
      h,
      m,
      s,
      pad_start-decimal (n / 3600 % 24) (omega arith),
      pad_start-decimal (n / 60 % 60) (omega arith),
      pad_start-decimal (n % 60) (omega arith),
    )

-- the end date of minutes is the clock one minute before the time
end_date-WritesTime :
    (time : ℕ) → time < seconds_bound → WritesTime (time - 60 + 32400) (end_date minute time)
unfolding end_date
end_date-WritesTime time h =
    let n = time - 60 + 32400 in
    let ms : (time - 60) * 1000 + kst_offset ≡ n * 1000 = omega arith in
    let d : n * 1000 / ms_per_day ≡ n / 86400 = omega arith in
    let w : Writes (n * 1000 / ms_per_day) (compact_date (n * 1000)) =
      compact_date-Writes (n * 1000) (omega arith) in
    rw ms (rw (w, compact_time-text n, d) refl)

behind_date : List ℕ → List ℕ
behind_date (a ∷ b ∷ c ∷ d ∷ e ∷ f ∷ g ∷ h ∷ s) = s
behind_date s = []

same_time : (m n : ℕ) → time_text m ≡ time_text n → m / 86400 ≡ n / 86400 → m ≡ n
same_time m n t d =
    let h : m / 3600 % 24 ≡ n / 3600 % 24 = ground (arith, t) in
    let mi : m / 60 % 60 ≡ n / 60 % 60 = ground (arith, t) in
    let s : m % 60 ≡ n % 60 = ground (arith, t) in omega arith

-- a text writes one time at most
pub WritesTime-unique : (m n : ℕ) (s : List ℕ) → WritesTime m s → WritesTime n s → m ≡ n
unfolding behind_date
WritesTime-unique m n s w v =
    let same = sym w ∙ v in
    same_time m n (ap behind_date same) (
      Writes-unique (m / 86400) (n / 86400) (compact_text (civil (m / 86400))) refl
        (ap (take 8) same))

-- a candle of the minute that the text writes, or before
abbrev pub IsUpToTime : List ℕ → OhlcvPoint → Type 0
IsUpToTime text p = (n : ℕ) → WritesTime n text → p.time + 32400 ≤ n

minutes_earlier :
    (first : ℕ) (p : OhlcvPoint) (l : List OhlcvPoint)
    → p.time + 60 ≤ first
    → All (λ (q : OhlcvPoint). first ≤ q.time) l
    → All (λ (q : OhlcvPoint). bucket minute p.time < bucket minute q.time) l
minutes_earlier first p [] le h = tt
minutes_earlier first p (q ∷ l) le h =
    (let h0 = h.0 in omega arith, minutes_earlier first p l le h.1)

all_minutes_earlier :
    (first : ℕ) (more l : List OhlcvPoint)
    → 60 ≤ first
    → first < seconds_bound
    → All (IsUpToTime (end_date minute first)) more
    → All (λ (q : OhlcvPoint). first ≤ q.time) l
    → All
        (λ (p : OhlcvPoint).
          All (λ (q : OhlcvPoint). bucket minute p.time < bucket minute q.time) l)
        more
all_minutes_earlier first [] l from below u h = tt
all_minutes_earlier first (p ∷ more) l from below u h =
    let le = u.0 (first - 60 + 32400) (end_date-WritesTime first below) in
    (minutes_earlier first p l (omega arith) h, all_minutes_earlier first more l from below u.1 h)

-- what the server keeps to: no candle after the minute, or the day, that the end date writes
abbrev pub IsAnswer : Interval → List ℕ → OhlcvPoint → Type 0
IsAnswer minute text p = IsUpToTime text p
IsAnswer day text p = IsUpTo text p
IsAnswer week text p = IsUpTo text p
IsAnswer month text p = IsUpTo text p

minute-IsPage :
    (least : OhlcvPoint) (ds more : List OhlcvPoint)
    → All (λ (d : OhlcvPoint). 86400 ≤ d.time) (least ∷ ds)
    → All IsSeconds (least ∷ ds)
    → IsSeries minute more
    → All (IsUpToTime (end_date minute (earliest_point least ds).time)) more
    → IsPage minute (least ∷ ds) more
minute-IsPage least ds more from secs s upto =
    let e = earliest_point least ds in
    let there = earliest_point-Within least ds in
    let start : 86400 ≤ e.time =
      All-within (λ (d : OhlcvPoint). 86400 ≤ d.time) e (least ∷ ds) from there in
    record {
      series = s;
      before =
          all_minutes_earlier e.time more (least ∷ ds) (omega arith)
            (All-within IsSeconds e (least ∷ ds) secs there) upto (earliest_point-least least ds);
    }

-- On every interval, where the series, in any order, has candles from 1970-01-02 on, and the server
-- answers the end date of `loadMore` with a series of candles up to the minute that it writes on "1m", and
-- up to the day that it writes on the others, the answer is a page: each of its candles lies in a minute,
-- or a day, before those of all candles at hand.
pub answer-IsPage :
    (i : Interval) (least : OhlcvPoint) (ds more : List OhlcvPoint)
    → All (λ (d : OhlcvPoint). 86400 ≤ d.time) (least ∷ ds)
    → All IsSeconds (least ∷ ds)
    → IsSeries i more
    → All (IsAnswer i (end_date i (earliest_point least ds).time)) more
    → IsPage i (least ∷ ds) more
answer-IsPage minute least ds more from secs s upto = minute-IsPage least ds more from secs s upto
answer-IsPage day least ds more from secs s upto =
    end_date-IsPage day refl least ds more from secs s upto
answer-IsPage week least ds more from secs s upto =
    end_date-IsPage week refl least ds more from secs s upto
answer-IsPage month least ds more from secs s upto =
    end_date-IsPage month refl least ds more from secs s upto
