-- ===== src/Text/Order.antt =====
-- The order of texts that start with two digits.
use stock_anomoly_detection.Prelude.{
  ℕ, ◌≡◌, refl, true, false, ◌&&◌, [], ◌∷◌, arith, ltb, ◌==◌, if◌then◌else◌,
}
use stock_anomoly_detection.Text.{Text, text_lt}
use stock_anomoly_detection.Text.Decimal.{two_digits}

-- two digits are compared as the numbers that they write
pub text_lt-two_digits :
    (m n : ℕ) (xs ys : Text)
    → text_lt (two_digits m xs) (two_digits n ys)
      ≡ (if ltb m n then true else m == n && text_lt xs ys)
unfolding text_lt
text_lt-two_digits m n xs ys = ground arith

-- an equal first code unit does not decide
pub text_lt-same : (c : ℕ) (xs ys : Text) → text_lt (c ∷ xs) (c ∷ ys) ≡ text_lt xs ys
unfolding text_lt
text_lt-same c xs ys = ground arith

pub text_lt_irrefl : (xs : Text) → text_lt xs xs ≡ false
unfolding text_lt
text_lt_irrefl [] = refl
text_lt_irrefl (c ∷ xs) = ground (arith, text_lt_irrefl xs)
