-- ===== src/Keyed/Put.antt =====
-- A map whose keys are numbers, seen as the list of its values.
use stock_anomoly_detection.Prelude.{
  ℕ, ◌≤◌, ◌<◌, ◌≡◌, refl, ◌≢◌, ap, Bool, List, [], ◌∷◌, ◌++◌, map, ◌==◌, if◌then◌else◌, Option,
  none, some, All, arith, Bool-cases, inl, inr,
}
use stock_anomoly_detection.Keyed.{map_set, map_set_all, values}

module _ {A : Type 0} (rank : A → ℕ) where
  -- `x` in the place of the element with its rank, or at the end
  unfoldable pub put : A → List A → List A
  put x [] = x ∷ []
  put x (y ∷ ys) = if rank y == rank x then x ∷ ys else y ∷ put x ys

  unfoldable pub put_all : List A → List A → List A
  unfolding put
  put_all m [] = m
  put_all m (x ∷ xs) = put_all (put x m) xs

  -- the element of a rank
  unfoldable pub find : ℕ → List A → Option A
  find r [] = none
  find r (x ∷ xs) = if rank x == r then some x else find r xs

  abbrev pub or_else : Option A → Option A → Option A
  or_else none d = d
  or_else (some x) d = some x

  -- the last element of a rank
  unfoldable pub find_last : ℕ → List A → Option A
  find_last r [] = none
  find_last r (x ∷ xs) = or_else (find_last r xs) (if rank x == r then some x else none)

  -- strictly ascending ranks
  abbrev pub IsAscending : List A → Type 0
  IsAscending [] = Unit
  IsAscending (x ∷ xs) = All (λ y. rank x < rank y) xs × IsAscending xs

  abbrev pub IsDistinct : List A → Type 0
  IsDistinct [] = Unit
  IsDistinct (x ∷ xs) = All (λ y. rank x ≢ rank y) xs × IsDistinct xs

  pub put-All : (P : A → Type 0) (x : A) (m : List A) → P x → All P m → All P (put x m)
  unfolding put
  put-All P x [] p h = (p, tt)
  put-All P x (y ∷ ys) p h = elim (Bool-cases (rank y == rank x)) [
    | inl e ↦ rw e (p, h.1)
    | inr e ↦ rw e (h.0, put-All P x ys p h.1)
  ]

  pub put_all-All : (P : A → Type 0) (m xs : List A) → All P m → All P xs → All P (put_all m xs)
  unfolding put_all
  put_all-All P m [] h k = h
  put_all-All P m (x ∷ xs) h k = put_all-All P (put x m) xs (put-All P x m k.0 h) k.1

  put-All_ne :
      (r : ℕ) (x : A) (m : List A)
      → r ≢ rank x
      → All (λ y. r ≢ rank y) m
      → All (λ y. r ≢ rank y) (put x m)
  put-All_ne r = put-All (λ y. r ≢ rank y)

  pub put-IsDistinct : (x : A) (m : List A) → IsDistinct m → IsDistinct (put x m)
  unfolding put
  put-IsDistinct x [] h = (tt, tt)
  put-IsDistinct x (y ∷ ys) h = elim (Bool-cases (rank y == rank x)) [
    | inl e ↦ let e' : rank y ≡ rank x = ground arith in rw e (rw e' at h)
    | inr e ↦ rw e (put-All_ne (rank y) x ys (ground arith) h.0, put-IsDistinct x ys h.1)
  ]

  pub put_all-IsDistinct : (m xs : List A) → IsDistinct m → IsDistinct (put_all m xs)
  unfolding put_all
  put_all-IsDistinct m [] h = h
  put_all-IsDistinct m (x ∷ xs) h = put_all-IsDistinct (put x m) xs (put-IsDistinct x m h)

  pub put-IsAscending :
      (x : A) (m : List A) → All (λ y. rank y ≤ rank x) m → IsAscending m → IsAscending (put x m)
  unfolding put
  put-IsAscending x [] b h = (tt, tt)
  put-IsAscending x (y ∷ ys) b h = elim (Bool-cases (rank y == rank x)) [
    | inl e ↦ let e' : rank y ≡ rank x = ground arith in rw e (rw e' at h)
    | inr e ↦ rw e (
      put-All (λ z. rank y < rank z) x ys (let b0 = b.0 in ground arith) h.0,
      put-IsAscending x ys b.1 h.1,
    )
  ]

  find-put :
      (r : ℕ) (x : A) (m : List A) → find r (put x m) ≡ (if rank x == r then some x else find r m)
  unfolding put find
  find-put r x [] = refl
  find-put r x (y ∷ ys) = ground (arith, find-put r x ys)

  -- putting one by one, the last element of a rank wins
  pub find-put_all :
      (r : ℕ) (m xs : List A) → find r (put_all m xs) ≡ or_else (find_last r xs) (find r m)
  unfolding put_all find_last
  find-put_all r m [] = refl
  find-put_all r m (x ∷ xs) = ground (arith, find-put_all r (put x m) xs, find-put r x m)

  -- a map filled from an array holds the last element of each rank
  pub find-put_all_nil : (r : ℕ) (xs : List A) → find r (put_all [] xs) ≡ find_last r xs
  unfolding find
  find-put_all_nil r xs = ground (arith, find-put_all r [] xs)

  -- an element behind wins over one before
  pub find_last-append :
      (r : ℕ) (xs ys : List A) → find_last r (xs ++ ys) ≡ or_else (find_last r ys) (find_last r xs)
  unfolding find_last
  find_last-append r [] ys = ground arith
  find_last-append r (x ∷ xs) ys = ground (arith, find_last-append r xs ys)

  module _ {K V : Type 0} (eq : K → K → Bool) (key : A → K) (value : A → V) (P : A → Type 0)
      (agree : (a b : A) → P a → P b → eq (key a) (key b) ≡ (rank a == rank b)) where
    abbrev entry : A → K × V
    entry a = (key a, value a)

    map_set-put :
        (x : A) (m : List A)
        → P x
        → All P m
        → map_set eq (key x) (value x) (map entry m) ≡ map entry (put x m)
    unfolding map_set put
    map_set-put x [] p h = refl
    map_set-put x (y ∷ ys) p h = rw (agree y x h.0 p) (ground (arith, map_set-put x ys p h.1))

    map_set_all-put_all :
        (m xs : List A)
        → All P m
        → All P xs
        → map_set_all eq key value (map entry m) xs ≡ map entry (put_all m xs)
    unfolding map_set_all put_all
    map_set_all-put_all m [] h k = refl
    map_set_all-put_all m (x ∷ xs) h k =
        rw (map_set-put x m k.0 h) (map_set_all-put_all (put x m) xs (put-All P x m k.0 h) k.1)

    values-entry : (m : List A) → values (map entry m) ≡ map value m
    values-entry [] = refl
    values-entry (x ∷ xs) = ap (◌∷◌ (value x)) (values-entry xs)

    -- A map filled from an array holds the elements that `put_all` keeps.
    pub values-map_set_all :
        (xs : List A)
        → All P xs
        → values (map_set_all eq key value [] xs) ≡ map value (put_all [] xs)
    values-map_set_all xs h = rw (map_set_all-put_all [] xs tt h) (values-entry (put_all [] xs))
