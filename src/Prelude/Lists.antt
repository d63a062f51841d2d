-- ===== src/Prelude/Lists.antt =====
-- Lists measured by native numbers, and a predicate on each element.
use Prim.Native.Nat.{ℕ, zero, suc, ◌+◌, ◌≤◌}
use mathlib.Core.Path.{◌≡◌, refl, ap}
use mathlib.Core.Logic.{◌⊎◌, inl, inr}
use mathlib.Core.Bool.{Bool}
use mathlib.Core.List.{List, [], ◌∷◌, ◌++◌}
use mathlib.Core.Option.{Option, none, some}
use native.Mathlib.Omega.{arith}
use stock_anomoly_detection.Prelude.Tests.{if◌then◌else◌}

module _ {ℓ} {A : Type ℓ} where
  abbrev pub length : List A → ℕ
  length [] = 0
  length (x ∷ xs) = suc (length xs)

  abbrev pub take : ℕ → List A → List A
  take zero xs = []
  take (suc n) [] = []
  take (suc n) (x ∷ xs) = x ∷ take n xs

  -- `xs[xs.length - 1]`, none on the empty array
  abbrev pub last : List A → Option A
  last [] = none
  last (x ∷ []) = some x
  last (x ∷ y ∷ xs) = last (y ∷ xs)

  -- `xs.filter(p)`
  abbrev pub keep : (A → Bool) → List A → List A
  keep p [] = []
  keep p (x ∷ xs) = if p x then x ∷ keep p xs else keep p xs

  pub length-append : (xs ys : List A) → length (xs ++ ys) ≡ length xs + length ys
  length-append [] ys = omega arith
  length-append (x ∷ xs) ys = omega (arith, length-append xs ys)

  pub length-take-le : (n : ℕ) (xs : List A) → length (take n xs) ≤ n
  length-take-le zero xs = omega arith
  length-take-le (suc n) [] = omega arith
  length-take-le (suc n) (x ∷ xs) = omega (arith, length-take-le n xs)

  pub take-take : (n : ℕ) (xs : List A) → take n (take (suc n) xs) ≡ take n xs
  take-take zero xs = refl
  take-take (suc n) [] = refl
  take-take (suc n) (x ∷ xs) = ap (◌∷◌ x) (take-take n xs)

  pub nil_of_last : (xs : List A) → last xs ≡ none → xs ≡ []
  nil_of_last [] e = refl
  nil_of_last (x ∷ []) e = absurd (ground arith)
  nil_of_last (x ∷ y ∷ xs) e = let r = nil_of_last (y ∷ xs) e in absurd (ground arith)

  pub last-append : (xs : List A) (y : A) → last (xs ++ y ∷ []) ≡ some y
  last-append [] y = refl
  last-append (x ∷ []) y = refl
  last-append (x ∷ z ∷ xs) y = last-append (z ∷ xs) y

module _ {ℓ κ} {A : Type ℓ} (P : A → Type κ) where
  abbrev pub All : List A → Type κ
  All [] = Unit
  All (x ∷ xs) = P x × All xs

  pub All-append : (xs ys : List A) → All xs → All ys → All (xs ++ ys)
  All-append [] ys hx hy = hy
  All-append (x ∷ xs) ys hx hy = (hx.0, All-append xs ys hx.1 hy)

-- Membership by recursion, which computes to sums that the tactics take apart.
module _ {A : Type 0} where
  abbrev pub Within : A → List A → Type 0
  Within a [] = ⊥
  Within a (x ∷ xs) = (x ≡ a) ⊎ Within a xs

  pub Within-append_left : (a : A) (xs ys : List A) → Within a xs → Within a (xs ++ ys)
  Within-append_left a [] ys h = absurd h
  Within-append_left a (x ∷ xs) ys (inl e) = inl e
  Within-append_left a (x ∷ xs) ys (inr h) = inr (Within-append_left a xs ys h)

  pub Within-append_right : (a : A) (xs ys : List A) → Within a ys → Within a (xs ++ ys)
  Within-append_right a [] ys h = h
  Within-append_right a (x ∷ xs) ys h = inr (Within-append_right a xs ys h)

  pub All-within {κ} : (P : A → Type κ) (a : A) (xs : List A) → All P xs → Within a xs → P a
  All-within P a [] h w = absurd w
  All-within P a (x ∷ xs) h (inl e) = rw (← e) h.0
  All-within P a (x ∷ xs) h (inr w) = All-within P a xs h.1 w
