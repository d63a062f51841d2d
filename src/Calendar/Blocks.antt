-- ===== src/Calendar/Blocks.antt =====
-- The lengths of years and months add up.
use stock_anomoly_detection.Prelude.{
  ℕ, zero, suc, ◌+◌, ◌≤◌, ◌<◌, ◌≡◌, refl, arith, Bool-cases, inl, inr, ltb,
}
use stock_anomoly_detection.Calendar.{
  is_leap, days_in_year, days_in_month, day_from_year, days_before_month,
}

pub day_from_year-suc :
    (y : ℕ) → 1970 ≤ y → day_from_year (suc y) ≡ day_from_year y + days_in_year y
unfolding day_from_year days_in_year is_leap
day_from_year-suc y h = ground arith

pub days_in_year_range : (y : ℕ) → 365 ≤ days_in_year y
unfolding days_in_year
days_in_year_range y = ground arith

pub days_before_month-12 : (y : ℕ) → days_before_month y 12 ≡ days_in_year y
unfolding days_in_month days_in_year
days_before_month-12 y = ground arith

-- an earlier month ends before a later one starts
pub days_before_month_mono :
    (y m n : ℕ) → m < n → days_before_month y m + days_in_month y m ≤ days_before_month y n
days_before_month_mono y m zero h = absurd (omega arith)
days_before_month_mono y m (suc n) h = elim (Bool-cases (ltb m n)) [
  | inl lt ↦ omega (arith, days_before_month_mono y m n (ground arith))
  | inr ge ↦ let e : m ≡ n = ground arith in rw e (omega arith)
]

-- an earlier year ends before a later one starts
pub day_from_year_mono :
    (y z : ℕ) → 1970 ≤ y → y < z → day_from_year y + days_in_year y ≤ day_from_year z
day_from_year_mono y zero k h = absurd (omega arith)
day_from_year_mono y (suc z) k h = elim (Bool-cases (ltb y z)) [
  | inl lt ↦
      let p : y < z = ground arith in
      omega (arith, day_from_year_mono y z k p, day_from_year-suc z (omega arith))
  | inr ge ↦ let e : y ≡ z = ground arith in rw e (omega (arith, day_from_year-suc z (omega arith)))
]

pub days_in_month-le : (y m : ℕ) → days_in_month y m ≤ 31
unfolding days_in_month
days_in_month-le y m = ground arith

-- the days before the year 10000
abbrev pub last_day : ℕ
last_day = 2932897

pub day_from_year-10000 : day_from_year 10000 ≡ last_day
unfolding day_from_year
day_from_year-10000 = refl
