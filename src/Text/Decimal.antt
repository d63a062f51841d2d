-- ===== src/Text/Decimal.antt =====
-- Decimal numerals of the widths that date keys use.
use stock_anomoly_detection.Prelude.{
  ℕ, suc, ◌+◌, ◌-◌, ◌/◌, ◌%◌, ◌≤◌, ◌<◌, ◌≡◌, [], ◌∷◌, ◌++◌, arith, Bool-cases, inl, inr, ltb,
}
use stock_anomoly_detection.Text.{Text, decimal_digits, decimal, pad_start}

abbrev digit : ℕ → ℕ
digit n = b'0' + n

decimal_digits_small : (fuel n : ℕ) → n < 10 → decimal_digits (suc fuel) n ≡ digit n ∷ []
unfolding decimal_digits
decimal_digits_small fuel n h = ground arith

decimal_digits_large :
    (fuel n : ℕ)
    → 10 ≤ n
    → decimal_digits (suc fuel) n ≡ decimal_digits fuel (n / 10) ++ digit (n % 10) ∷ []
unfolding decimal_digits
decimal_digits_large fuel n h = ground arith

-- the two code units of a number below one hundred, with a leading zero
abbrev pub two_digits : ℕ → Text → Text
two_digits n rest = digit (n / 10) ∷ digit (n % 10) ∷ rest

decimal_one : (n : ℕ) → n < 10 → decimal n ≡ digit n ∷ []
unfolding decimal
decimal_one n h = let e : n + 1 ≡ suc n = omega arith in rw e (decimal_digits_small n n h)

decimal_two : (n : ℕ) → 10 ≤ n → n < 100 → decimal n ≡ two_digits n []
unfolding decimal
decimal_two n h k =
    let e : n + 1 ≡ suc (suc (n - 1)) = omega arith in
    rw (
      e,
      decimal_digits_large (suc (n - 1)) n h,
      decimal_digits_small (n - 1) (n / 10) (omega arith),
    )

-- `String(n).padStart(2, "0")` is the two digits of `n`
pub pad_start-decimal : (n : ℕ) → n < 100 → pad_start 2 b'0' (decimal n) ≡ two_digits n []
unfolding pad_start
pad_start-decimal n h = elim (Bool-cases (ltb n 10)) [
  | inl small ↦
      let lt : n < 10 = ground arith in
      let q : n / 10 ≡ 0 = omega arith in
      let r : n % 10 ≡ n = omega arith in rw (decimal_one n lt, q, r)
  | inr large ↦ rw (decimal_two n (ground arith) h)
]

-- `String(n)` for a number of four digits
pub decimal_four :
    (n : ℕ) → 1000 ≤ n → n < 10000 → decimal n ≡ two_digits (n / 100) (two_digits (n % 100) [])
unfolding decimal
decimal_four n h k =
    let e : n + 1 ≡ suc (suc (suc (suc (n - 3)))) = omega arith in
    let a : n / 10 / 10 / 10 ≡ n / 100 / 10 = omega arith in
    let b : n / 10 / 10 % 10 ≡ n / 100 % 10 = omega arith in
    let c : n / 10 % 10 ≡ n % 100 / 10 = omega arith in
    let d : n % 10 ≡ n % 100 % 10 = omega arith in
    rw
      (
        e,
        decimal_digits_large (suc (suc (suc (n - 3)))) n (omega arith),
        decimal_digits_large (suc (suc (n - 3))) (n / 10) (omega arith),
        decimal_digits_large (suc (n - 3)) (n / 10 / 10) (omega arith),
        decimal_digits_small (n - 3) (n / 10 / 10 / 10) (omega arith),
      )
      (rw (a, b, c) (rw d))
