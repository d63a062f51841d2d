-- ===== src/Keyed/Sort.antt =====
-- What the sort promises.
use stock_anomoly_detection.Prelude.{
  ℕ, ◌≤◌, ◌<◌, ◌≡◌, refl, ◌≢◌, List, [], ◌∷◌, leb, ◌==◌, if◌then◌else◌, some, All, arith,
  Bool-cases, inl, inr, length, suc,
}
use stock_anomoly_detection.Keyed.{insert_sorted, sort_by}
use stock_anomoly_detection.Keyed.Put.{
  put, put_all, find, IsAscending, IsDistinct, put-All, put-IsAscending,
}

module _ {A : Type 0} (rank : A → ℕ) where
  -- ranks that never fall
  abbrev pub IsSorted : List A → Type 0
  IsSorted [] = Unit
  IsSorted (x ∷ xs) = All (λ y. rank x ≤ rank y) xs × IsSorted xs

  insert_sorted-All :
      (P : A → Type 0) (x : A) (l : List A) → P x → All P l → All P (insert_sorted rank x l)
  unfolding insert_sorted
  insert_sorted-All P x [] p h = (p, tt)
  insert_sorted-All P x (y ∷ ys) p h = elim (Bool-cases (leb (rank x) (rank y))) [
    | inl e ↦ rw e (p, h)
    | inr e ↦ rw e (h.0, insert_sorted-All P x ys p h.1)
  ]

  pub sort_by-All : (P : A → Type 0) (l : List A) → All P l → All P (sort_by rank l)
  unfolding sort_by
  sort_by-All P [] h = tt
  sort_by-All P (x ∷ xs) h = insert_sorted-All P x (sort_by rank xs) h.0 (sort_by-All P xs h.1)

  All-le :
      (x y : A) (l : List A)
      → rank x ≤ rank y
      → All (λ z. rank y ≤ rank z) l
      → All (λ z. rank x ≤ rank z) l
  All-le x y [] le h = tt
  All-le x y (z ∷ l) le h = (let h0 = h.0 in omega arith, All-le x y l le h.1)

  All-lt :
      (x y : A) (l : List A)
      → rank x < rank y
      → All (λ z. rank y < rank z) l
      → All (λ z. rank x < rank z) l
  All-lt x y [] lt h = tt
  All-lt x y (z ∷ l) lt h = (let h0 = h.0 in omega arith, All-lt x y l lt h.1)

  insert_sorted-IsSorted : (x : A) (l : List A) → IsSorted l → IsSorted (insert_sorted rank x l)
  unfolding insert_sorted
  insert_sorted-IsSorted x [] h = (tt, tt)
  insert_sorted-IsSorted x (y ∷ ys) h = elim (Bool-cases (leb (rank x) (rank y))) [
    | inl e ↦ let le : rank x ≤ rank y = ground arith in rw e ((le, All-le x y ys le h.0), h)
    | inr e ↦ rw e (
      insert_sorted-All (λ z. rank y ≤ rank z) x ys (ground arith) h.0,
      insert_sorted-IsSorted x ys h.1,
    )
  ]

  pub sort_by-IsSorted : (l : List A) → IsSorted (sort_by rank l)
  unfolding sort_by
  sort_by-IsSorted [] = tt
  sort_by-IsSorted (x ∷ xs) = insert_sorted-IsSorted x (sort_by rank xs) (sort_by-IsSorted xs)

  insert_sorted-IsAscending :
      (x : A) (l : List A)
      → All (λ y. rank x ≢ rank y) l
      → IsAscending rank l
      → IsAscending rank (insert_sorted rank x l)
  unfolding insert_sorted
  insert_sorted-IsAscending x [] n h = (tt, tt)
  insert_sorted-IsAscending x (y ∷ ys) n h = elim (Bool-cases (leb (rank x) (rank y))) [
    | inl e ↦
        let n0 = n.0 in
        let lt : rank x < rank y = ground arith in rw e ((lt, All-lt x y ys lt h.0), h)
    | inr e ↦ rw e (
      insert_sorted-All (λ z. rank y < rank z) x ys (ground arith) h.0,
      insert_sorted-IsAscending x ys n.1 h.1,
    )
  ]

  -- sorting elements of different ranks gives strictly ascending ranks
  pub sort_by-IsAscending : (l : List A) → IsDistinct rank l → IsAscending rank (sort_by rank l)
  unfolding sort_by
  sort_by-IsAscending [] h = tt
  sort_by-IsAscending (x ∷ xs) h =
      insert_sorted-IsAscending x (sort_by rank xs) (sort_by-All (λ y. rank x ≢ rank y) xs h.0)
        (sort_by-IsAscending xs h.1)

  -- filling a map in sorted order keeps it ascending
  pub put_all-IsAscending :
      (m xs : List A)
      → IsAscending rank m
      → IsSorted xs
      → All (λ x. All (λ y. rank y ≤ rank x) m) xs
      → IsAscending rank (put_all rank m xs)
  unfolding put_all
  put_all-IsAscending m [] h s b = h
  put_all-IsAscending m (x ∷ xs) h s b =
      put_all-IsAscending (put rank x m) xs (put-IsAscending rank x m b.0 h) s.1 (below xs s.0 b.1)
    where
      below :
          (l : List A)
          → All (λ z. rank x ≤ rank z) l
          → All (λ z. All (λ y. rank y ≤ rank z) m) l
          → All (λ z. All (λ y. rank y ≤ rank z) (put rank x m)) l
      below [] u v = tt
      below (z ∷ l) u v = (put-All rank (λ y. rank y ≤ rank z) x m u.0 v.0, below l u.1 v.1)

  insert_sorted-length : (x : A) (l : List A) → length (insert_sorted rank x l) ≡ suc (length l)
  unfolding insert_sorted
  insert_sorted-length x [] = refl
  insert_sorted-length x (y ∷ ys) = ground (arith, insert_sorted-length x ys)

  pub length-sort_by : (l : List A) → length (sort_by rank l) ≡ length l
  unfolding sort_by
  length-sort_by [] = refl
  length-sort_by (x ∷ xs) =
      omega (arith, insert_sorted-length x (sort_by rank xs), length-sort_by xs)

  find-insert_sorted :
      (r : ℕ) (x : A) (l : List A)
      → All (λ y. rank x ≢ rank y) l
      → find rank r (insert_sorted rank x l) ≡ (if rank x == r then some x else find rank r l)
  unfolding insert_sorted find
  find-insert_sorted r x [] n = refl
  find-insert_sorted r x (y ∷ ys) n = let n0 = n.0 in ground (arith, find-insert_sorted r x ys n.1)

  -- sorting elements of different ranks loses and changes none
  pub find-sort_by :
      (r : ℕ) (l : List A) → IsDistinct rank l → find rank r (sort_by rank l) ≡ find rank r l
  unfolding sort_by find
  find-sort_by r [] h = refl
  find-sort_by r (x ∷ xs) h = rw (
    find-insert_sorted r x (sort_by rank xs) (sort_by-All (λ y. rank x ≢ rank y) xs h.0),
    find-sort_by r xs h.1,
  )
