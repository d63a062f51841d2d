-- ===== src/Keyed/Unique.antt =====
-- An ascending list is determined by what it holds at each rank.
use mathlib.Core.Path.{subst}
use stock_anomoly_detection.Prelude.{
  ℕ, ◌<◌, ◌≡◌, refl, sym, ap, ◌∙◌, ◌≢◌, ◌↔◌, List, [], ◌∷◌, ◌++◌, none, some, ◌==◌, if◌then◌else◌,
  All, Within, All-within, All-append, arith, Bool-cases, Option-cases, inl, inr,
}
use mathlib.Core.List.{append-nil, append_assoc}
use stock_anomoly_detection.Keyed.{sort_by}
use stock_anomoly_detection.Keyed.Sort.{sort_by-IsAscending, find-sort_by}
use stock_anomoly_detection.Keyed.Put.{put, put_all, find, find_last, IsAscending, IsDistinct}

module _ {A : Type 0} (rank : A → ℕ) where
  find-none_of_lt : (r : ℕ) (l : List A) → All (λ y. r < rank y) l → find rank r l ≡ none
  unfolding find
  find-none_of_lt r [] h = refl
  find-none_of_lt r (y ∷ ys) h = let h0 = h.0 in ground (arith, find-none_of_lt r ys h.1)

  find_self : (x : A) (xs : List A) → find rank (rank x) (x ∷ xs) ≡ some x
  unfolding find
  find_self x xs = ground arith

  find-cons_lt :
      (r : ℕ) (y : A) (ys : List A)
      → r < rank y
      → All (λ z. rank y < rank z) ys
      → find rank r (y ∷ ys) ≡ none
  find-cons_lt r y ys lt h = find-none_of_lt r (y ∷ ys) (lt, below ys h)
    where
      below : (l : List A) → All (λ z. rank y < rank z) l → All (λ z. r < rank z) l
      below [] u = tt
      below (z ∷ l) u = (let u0 = u.0 in omega arith, below l u.1)

  -- the first elements of two such lists are the same, if the lists agree at all ranks
  same_head :
      (x y : A) (xs ys : List A)
      → IsAscending rank (x ∷ xs)
      → IsAscending rank (y ∷ ys)
      → find rank (rank x) (x ∷ xs) ≡ find rank (rank x) (y ∷ ys)
      → find rank (rank y) (x ∷ xs) ≡ find rank (rank y) (y ∷ ys)
      → x ≡ y
  same_head x y xs ys a b e f = ground (
    arith,
    find_self x xs,
    find_self y ys,
    find-cons_lt (rank x) y ys,
    find-cons_lt (rank y) x xs,
    one,
  )
    where
      one : rank x ≡ rank y → some x ≡ some y
      one h = sym (find_self x xs) ∙ e ∙ ap (λ r. find rank r (y ∷ ys)) h ∙ find_self y ys

  find-cons :
      (r : ℕ) (x : A) (l : List A)
      → find rank r (x ∷ l) ≡ (if rank x == r then some x else find rank r l)
  unfolding find
  find-cons r x l = refl

  -- what lists agree on behind a common first element
  same_tail :
      (x : A) (xs ys : List A) (r : ℕ)
      → IsAscending rank (x ∷ xs)
      → IsAscending rank (x ∷ ys)
      → find rank r (x ∷ xs) ≡ find rank r (x ∷ ys)
      → find rank r xs ≡ find rank r ys
  same_tail x xs ys r a b e = elim (Bool-cases (rank x == r)) [
    | inl same ↦
        let h : rank x ≡ r = ground arith in
        ap (λ q. find rank q xs) (sym h)
        ∙ find-none_of_lt (rank x) xs a.0
        ∙ sym (find-none_of_lt (rank x) ys b.0)
        ∙ ap (λ q. find rank q ys) h
    | inr other ↦ rw (find-cons r x xs, find-cons r x ys, other) at e
  ]

  -- Two ascending lists that agree at all ranks are one list.
  pub ascending_ext :
      (xs ys : List A)
      → IsAscending rank xs
      → IsAscending rank ys
      → ((r : ℕ) → find rank r xs ≡ find rank r ys)
      → xs ≡ ys
  ascending_ext [] [] a b h = refl
  ascending_ext [] (y ∷ ys) a b h =
      let e = h (rank y) ∙ find_self y ys in absurd (ground (arith, find-nil (rank y)))
    where
      find-nil : (r : ℕ) → find rank r [] ≡ none
      find-nil r = unfold find in refl
  ascending_ext (x ∷ xs) [] a b h =
      let e = sym (h (rank x)) ∙ find_self x xs in absurd (ground (arith, find-nil (rank x)))
    where
      find-nil : (r : ℕ) → find rank r [] ≡ none
      find-nil r = unfold find in refl
  ascending_ext (x ∷ xs) (y ∷ ys) a b h =
      let e = same_head x y xs ys a b (h (rank x)) (h (rank y)) in
      let b' : IsAscending rank (x ∷ ys) = subst (λ z. IsAscending rank (z ∷ ys)) (sym e) b in
      let agree : (r : ℕ) → find rank r (x ∷ xs) ≡ find rank r (x ∷ ys) =
        subst (λ z. (r : ℕ) → find rank r (x ∷ xs) ≡ find rank r (z ∷ ys)) (sym e) h in
      rw (← e) (ap (◌∷◌ x) (ascending_ext xs ys a.1 b.1 (λ r. same_tail x xs ys r a b' (agree r))))

  find-absent : (r : ℕ) (l : List A) → All (λ y. r ≢ rank y) l → find rank r l ≡ none
  unfolding find
  find-absent r [] h = refl
  find-absent r (y ∷ ys) h = let h0 = h.0 in ground (arith, find-absent r ys h.1)

  -- in a list of different ranks the first and the last element of a rank are one
  pub find_last-IsDistinct :
      (r : ℕ) (l : List A) → IsDistinct rank l → find_last rank r l ≡ find rank r l
  unfolding find find_last
  find_last-IsDistinct r [] d = refl
  find_last-IsDistinct r (x ∷ xs) d = elim (Bool-cases (rank x == r)) [
    | inl same ↦
        let e : r ≡ rank x = ground arith in
        let gone = find-absent (rank x) xs d.0 in
        let ih = find_last-IsDistinct r xs d.1 in rw same (rw ih (rw e (rw gone)))
    | inr other ↦ rw other (ground (arith, find_last-IsDistinct r xs d.1))
  ]

  pub IsDistinct-of_IsAscending : (l : List A) → IsAscending rank l → IsDistinct rank l
  IsDistinct-of_IsAscending [] h = tt
  IsDistinct-of_IsAscending (x ∷ xs) h = (differ xs h.0, IsDistinct-of_IsAscending xs h.1)
    where
      differ : (l : List A) → All (λ y. rank x < rank y) l → All (λ y. rank x ≢ rank y) l
      differ [] u = tt
      differ (y ∷ ys) u = (let u0 = u.0 in ground arith, differ ys u.1)

  find-Within : (r : ℕ) (l : List A) (x : A) → find rank r l ≡ some x → Within x l × (rank x ≡ r)
  unfolding find
  find-Within r [] x e = absurd (ground arith)
  find-Within r (y ∷ ys) x e = ground (arith, find-Within r ys x)

  Within-find :
      (l : List A) (x : A) → IsDistinct rank l → Within x l → find rank (rank x) l ≡ some x
  unfolding find
  Within-find [] x d w = absurd w
  Within-find (y ∷ ys) x d (inl e) =
      subst (λ z. find rank (rank z) (y ∷ ys) ≡ some z) e (find_self y ys)
  Within-find (y ∷ ys) x d (inr w) =
      let ne = All-within (λ z. rank y ≢ rank z) x ys d.0 w in
      ground (arith, Within-find ys x d.1 w)

  -- Lists of different ranks with the same elements agree at all ranks.
  pub find-same_elements :
      (a b : List A)
      → IsDistinct rank a
      → IsDistinct rank b
      → ((x : A) → Within x a ↔ Within x b)
      → (r : ℕ) → find rank r a ≡ find rank r b
  find-same_elements a b d e same r = elim (Option-cases (find rank r a)) [
    | inl gone ↦ elim (Option-cases (find rank r b)) [
      | inl gone' ↦ gone ∙ sym gone'
      | inr (y, there) ↦
          let w = find-Within r b y there in
          let f = Within-find a y d ((same y).1 w.0) in
          absurd (ground (arith, w.1, ap (λ q. find rank q a) w.1))
    ]
    | inr (x, there) ↦
        let w = find-Within r a x there in
        there ∙ sym (Within-find b x e ((same x).0 w.0)) ∙ ap (λ q. find rank q b) w.1
  ]

  -- Sorting does not depend on the order of elements of different ranks.
  pub sort_by_unordered :
      (a b : List A)
      → IsDistinct rank a
      → IsDistinct rank b
      → ((x : A) → Within x a ↔ Within x b)
      → sort_by rank a ≡ sort_by rank b
  sort_by_unordered a b d e same =
      ascending_ext (sort_by rank a) (sort_by rank b) (sort_by-IsAscending rank a d)
        (sort_by-IsAscending rank b e)
        λ r.
          find-sort_by rank r a d
          ∙ find-same_elements a b d e same r
          ∙ sym (find-sort_by rank r b e)

  -- Sorting keeps a list that is in order.
  pub sort_by_ascending : (l : List A) → IsAscending rank l → sort_by rank l ≡ l
  sort_by_ascending l h =
      let d = IsDistinct-of_IsAscending l h in
      ascending_ext (sort_by rank l) l (sort_by-IsAscending rank l d) h λ r. find-sort_by rank r l d

  put-append : (x : A) (m : List A) → All (λ y. rank y ≢ rank x) m → put rank x m ≡ m ++ x ∷ []
  unfolding put
  put-append x [] h = refl
  put-append x (y ∷ ys) h = let h0 = h.0 in ground (arith, put-append x ys h.1)

  extend-None :
      (x : A) (m xs : List A)
      → All (λ z. rank x ≢ rank z) xs
      → All (λ z. All (λ y. rank y ≢ rank z) m) xs
      → All (λ z. All (λ y. rank y ≢ rank z) (m ++ x ∷ [])) xs
  extend-None x m [] u v = tt
  extend-None x m (z ∷ xs) u v =
      (All-append (λ y. rank y ≢ rank z) m (x ∷ []) v.0 (u.0, tt), extend-None x m xs u.1 v.1)

  put_all-append :
      (m xs : List A)
      → All (λ z. All (λ y. rank y ≢ rank z) m) xs
      → IsDistinct rank xs
      → put_all rank m xs ≡ m ++ xs
  unfolding put_all
  put_all-append m [] h d = sym (append-nil m)
  put_all-append m (x ∷ xs) h d = rw (put-append x m h.0) (
      put_all-append (m ++ x ∷ []) xs (extend-None x m xs d.0 h.1) d.1 ∙ append_assoc m (x ∷ []) xs)

  none_before : (xs : List A) → All (λ x. All (λ y. rank y ≢ rank x) []) xs
  none_before [] = tt
  none_before (x ∷ xs) = (tt, none_before xs)

  -- Putting elements of different ranks one by one gives them all, in their order.
  pub put_all_distinct : (l : List A) → IsDistinct rank l → put_all rank [] l ≡ l
  put_all_distinct l d = put_all-append [] l (none_before l) d
