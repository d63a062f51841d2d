-- ===== src/Calendar/Dates.antt =====
-- A day number and its year, month and date determine each other, and have the same order.
use stock_anomoly_detection.Prelude.{
  ℕ, zero, suc, ◌+◌, ◌-◌, ◌*◌, ◌/◌, ◌≤◌, ◌<◌, ◌≡◌, sym, ap, arith, Bool, true, false, ◌&&◌,
  Bool-cases, inl, inr, ltb, lt→ltb, ltb→lt, ◌==◌, if◌then◌else◌, ◌⊎◌,
}
use stock_anomoly_detection.Calendar.{
  Civil, find_month, find_year, civil, days_in_year, days_in_month, day_from_year,
  days_before_month, make_day, set_utc_date, get_utc_date, ms_per_day,
}
use stock_anomoly_detection.Calendar.Blocks.{
  last_day, day_from_year-10000, day_from_year-suc, days_in_year_range, days_before_month-12,
  days_before_month_mono, day_from_year_mono,
}

-- `c` is the date of day number `d`.
pub record IsDateOf (d : ℕ) (c : Civil) : Type 0 where
  pub from_1970 : 1970 ≤ c.year
  pub month_in : c.month ≤ 11
  pub date_from : 1 ≤ c.date
  pub date_in : c.date ≤ days_in_month c.year c.month
  pub counted : day_from_year c.year + days_before_month c.year c.month + c.date ≡ d + 1

find_month-IsDateOf :
    (left y m d : ℕ)
    → 1970 ≤ y
    → m + left ≡ 11
    → days_before_month y m + d < days_in_year y
    → IsDateOf (day_from_year y + days_before_month y m + d) (find_month left y m d)
unfolding find_month
find_month-IsDateOf zero y m d hy e h =
    let e' : m ≡ 11 = omega arith in
    let twelve = days_before_month-12 y in
    rw e' (record {
      from_1970 = hy;
      month_in = omega arith;
      date_from = omega arith;
      date_in = let h' : days_before_month y 11 + d < days_in_year y = rw e' at h in omega arith;
      counted = omega arith;
    })
find_month-IsDateOf (suc left) y m d hy e h = elim (Bool-cases (ltb d (days_in_month y m))) [
  | inl here ↦ rw here (record {
    from_1970 = hy;
    month_in = omega arith;
    date_from = omega arith;
    date_in = ground arith;
    counted = omega arith;
  })
  | inr later ↦
      let le : days_in_month y m ≤ d = ground arith in
      let s : m + 1 ≡ suc m = omega arith in
      let total : day_from_year y + days_before_month y (suc m) + (d - days_in_month y m)
          ≡ day_from_year y + days_before_month y m + d =
        omega arith in
      rw (later, s, ← total)
        (find_month-IsDateOf left y (suc m) (d - days_in_month y m) hy (omega arith) (omega arith))
]

find_year-IsDateOf :
    (fuel y d : ℕ) → 1970 ≤ y → d ≤ fuel * 365 → IsDateOf (day_from_year y + d) (find_year fuel y d)
unfolding find_year
find_year-IsDateOf zero y d hy h =
    let r = days_in_year_range y in
    let m = find_month-IsDateOf 11 y 0 d hy (omega arith) (omega arith) in
    let e : day_from_year y + 0 + d ≡ day_from_year y + d = omega arith in rw e at m
find_year-IsDateOf (suc fuel) y d hy h = elim (Bool-cases (ltb d (days_in_year y))) [
  | inl here ↦
      let m = find_month-IsDateOf 11 y 0 d hy (omega arith) (ground arith) in
      let e : day_from_year y + 0 + d ≡ day_from_year y + d = omega arith in rw here (rw e at m)
  | inr later ↦
      let le : days_in_year y ≤ d = ground arith in
      let s : y + 1 ≡ suc y = omega arith in
      let total : day_from_year (suc y) + (d - days_in_year y) ≡ day_from_year y + d =
        omega (arith, day_from_year-suc y hy) in
      rw (later, s, ← total)
        (find_year-IsDateOf fuel (suc y) (d - days_in_year y) (omega arith)
          (omega (arith, days_in_year_range y)))
]

pub civil-IsDateOf : (d : ℕ) → IsDateOf d (civil d)
unfolding civil day_from_year
civil-IsDateOf d =
    let v : IsDateOf (0 + d) (find_year d 1970 d) =
      find_year-IsDateOf d 1970 d (omega arith) (omega arith) in
    let e : 0 + d ≡ d = omega arith in rw e at v

-- a day before the year 10000 has a year of four digits
pub year-lt : {d : ℕ} {c : Civil} → IsDateOf d c → d < last_day → c.year < 10000
year-lt {d} {c} v h = elim (Bool-cases (ltb c.year 10000)) [
  | inl lt ↦ ltb→lt c.year 10000 lt
  | inr ge ↦ elim (Bool-cases (ltb 10000 c.year)) [
    | inl gt ↦ absurd (
        omega (
          arith,
          v.counted,
          v.date_from,
          day_from_year-10000,
          day_from_year_mono 10000 c.year (omega arith) (ltb→lt 10000 c.year gt),
        ))
    | inr le ↦
        let e : c.year ≡ 10000 = ground arith in
        absurd (omega (arith, v.counted, v.date_from, day_from_year-10000, ap day_from_year e))
  ]
]

-- MakeDay undoes the split of a day number into year, month and date.
pub make_day-civil : (d : ℕ) → make_day (civil d).year (civil d).month (civil d).date ≡ d
unfolding make_day
make_day-civil d = omega (arith, (civil-IsDateOf d).counted)

-- Setting the date one back steps to the day before, over month and year ends, and keeps the time.
pub set_utc_date-get_utc_date :
    (ms : ℕ) → ms_per_day ≤ ms → set_utc_date ms (get_utc_date ms - 1) ≡ ms - ms_per_day
unfolding set_utc_date get_utc_date
set_utc_date-get_utc_date ms h =
    let v = civil-IsDateOf (ms / ms_per_day) in omega (arith, v.counted, v.date_from)

-- the order of dates: by year, then month, then day of the month
abbrev pub civil_lt : Civil → Civil → Bool
civil_lt a b =
    if ltb a.year b.year
    then true
    else a.year == b.year
      && (if ltb a.month b.month then true else a.month == b.month && ltb a.date b.date)

-- how one date comes before another
data Before (a b : Civil) : Type 0 where
  by_year : a.year < b.year → Before a b
  by_month : a.year ≡ b.year → a.month < b.month → Before a b
  by_date : a.year ≡ b.year → a.month ≡ b.month → a.date < b.date → Before a b

Before-lt : {d e : ℕ} (a b : Civil) → IsDateOf d a → IsDateOf e b → Before a b → d < e
Before-lt a b v w (by_year h) = omega (
  arith,
  v.counted,
  w.counted,
  v.date_in,
  w.date_from,
  days_before_month_mono a.year a.month 12 (omega (arith, v.month_in)),
  days_before_month-12 a.year,
  day_from_year_mono a.year b.year v.from_1970 h,
)
Before-lt a b v w (by_month e h) = omega (
  arith,
  v.counted,
  w.counted,
  v.date_in,
  w.date_from,
  ap day_from_year e,
  ap (λ y. days_before_month y b.month) e,
  days_before_month_mono a.year a.month b.month h,
)
Before-lt a b v w (by_date e f h) = omega (
  arith,
  v.counted,
  w.counted,
  ap day_from_year e,
  ap (λ y. days_before_month y b.month) e,
  ap (λ m. days_before_month a.year m) f,
)

abbrev Order : Civil → Civil → Type 0
Order a b =
    (Before a b × (civil_lt a b ≡ true))
    ⊎ ((a ≡ b) × (civil_lt a b ≡ false))
    ⊎ (Before b a × (civil_lt a b ≡ false))

compare_dates : (a b : Civil) → Order a b
compare_dates a b = grind (arith, by_year, by_month, by_date)

abbrev total : Civil → ℕ
total c = day_from_year c.year + days_before_month c.year c.month + c.date

Order-ltb :
    {d e : ℕ} {a b : Civil} → Order a b → IsDateOf d a → IsDateOf e b → civil_lt a b ≡ ltb d e
Order-ltb {d} {e} {a} {b} (inl (p, q)) v w = rw q (sym (lt→ltb d e (Before-lt a b v w p)))
Order-ltb {d} {e} {a} {b} (inr (inl (p, q))) v w =
    let same : d ≡ e = omega (arith, v.counted, w.counted, ap total p) in rw q (ground arith)
Order-ltb {d} {e} {a} {b} (inr (inr (p, q))) v w =
    let gt : e < d = Before-lt b a w v p in rw q (ground arith)

-- Dates are ordered as their day numbers.
pub civil_lt-civil : (d e : ℕ) → civil_lt (civil d) (civil e) ≡ ltb d e
civil_lt-civil d e =
    Order-ltb (compare_dates (civil d) (civil e)) (civil-IsDateOf d) (civil-IsDateOf e)
