-- ===== src/Keyed/Count.antt =====
-- Counting the elements of different ranks.
use stock_anomoly_detection.Prelude.{
  ℕ, ◌+◌, ◌≤◌, ◌≡◌, refl, ◌≢◌, List, [], ◌∷◌, ◌==◌, if◌then◌else◌, none, All, arith, length,
  Bool-cases, inl, inr,
}
use stock_anomoly_detection.Keyed.Put.{find, find_last, IsDistinct}

module _ {A : Type 0} (rank : A → ℕ) where
  remove : ℕ → List A → List A
  remove r [] = []
  remove r (x ∷ xs) = if rank x == r then xs else x ∷ remove r xs

  length-remove : (r : ℕ) (l : List A) → find rank r l ≢ none → length (remove r l) + 1 ≡ length l
  unfolding remove find
  length-remove r [] h = absurd (h refl)
  length-remove r (x ∷ xs) h = elim (Bool-cases (rank x == r)) [
    | inl e ↦ rw e (omega arith)
    | inr e ↦ let ih = length-remove r xs (rw e at h) in rw e (omega arith)
  ]

  find-remove_ne : (r q : ℕ) (l : List A) → q ≢ r → find rank q (remove r l) ≡ find rank q l
  unfolding remove find
  find-remove_ne r q [] h = refl
  find-remove_ne r q (x ∷ xs) h = ground (arith, find-remove_ne r q xs h)

  abbrev pub Covers : List A → List A → Type 0
  Covers b a = All (λ x. find rank (rank x) b ≢ none) a

  Covers-remove :
      (x : A) (b l : List A)
      → All (λ y. rank x ≢ rank y) l
      → Covers b l
      → Covers (remove (rank x) b) l
  Covers-remove x b [] n h = tt
  Covers-remove x b (y ∷ l) n h = (
    (let n0 = n.0 in
        let differ : rank y ≢ rank x = ground arith in
        rw (find-remove_ne (rank x) (rank y) b differ) h.0),
    Covers-remove x b l n.1 h.1,
  )

  -- a list of different ranks is no longer than one that has all of them
  pub length-le_of_Covers : (a b : List A) → IsDistinct rank a → Covers b a → length a ≤ length b
  length-le_of_Covers [] b d h = omega arith
  length-le_of_Covers (x ∷ xs) b d h =
      let ih = length-le_of_Covers xs (remove (rank x) b) d.1 (Covers-remove x b xs d.0 h.1) in
      omega (arith, length-remove (rank x) b h.0)

  find_last-cons_ne :
      (r : ℕ) (x : A) (l : List A) → find_last rank r l ≢ none → find_last rank r (x ∷ l) ≢ none
  unfolding find_last
  find_last-cons_ne r x l h = ground arith

  find_last_self : (x : A) (l : List A) → find_last rank (rank x) (x ∷ l) ≢ none
  unfolding find_last
  find_last_self x l = ground arith

  weaken :
      (x : A) (l k : List A)
      → All (λ y. find_last rank (rank y) l ≢ none) k
      → All (λ y. find_last rank (rank y) (x ∷ l) ≢ none) k
  weaken x l [] h = tt
  weaken x l (y ∷ k) h = (find_last-cons_ne (rank y) x l h.0, weaken x l k h.1)

  -- each element's rank has a last element
  pub find_last-All : (l : List A) → All (λ y. find_last rank (rank y) l ≢ none) l
  find_last-All [] = tt
  find_last-All (x ∷ l) = (find_last_self x l, weaken x l l (find_last-All l))

  -- a rank has a first element if it has a last one
  pub find-ne_none : (r : ℕ) (l : List A) → find_last rank r l ≢ none → find rank r l ≢ none
  unfolding find find_last
  find-ne_none r [] h = h
  find-ne_none r (x ∷ l) h = ground (arith, find-ne_none r l)

  -- a rank that has no element is none of the ranks
  pub find_last-none : (r : ℕ) (l : List A) → find_last rank r l ≡ none → All (λ y. r ≢ rank y) l
  unfolding find_last
  find_last-none r [] h = tt
  find_last-none r (x ∷ l) h = (ground arith, find_last-none r l (ground arith))

  module _ (P Q : A → Type 0) (to : (x : A) → P x → Q x) where
    pub All-to : (l : List A) → All P l → All Q l
    All-to [] h = tt
    All-to (x ∷ l) h = (to x h.0, All-to l h.1)
