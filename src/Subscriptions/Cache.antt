-- ===== src/Subscriptions/Cache.antt =====
-- The cache of SubscriptionCacheRedisRepository.java gives back what was put into it.
use stock_anomoly_detection.Prelude.{
  ◌≤◌, ◌⊎◌, inl, inr, length, ℕ, ◌≡◌, ◌≢◌, refl, ap, ◌∙◌, List, [], ◌∷◌, ◌++◌, some, All, arith,
}
use stock_anomoly_detection.Text.{Text, split}
use stock_anomoly_detection.Api.Reading.{Lacks}
use stock_anomoly_detection.Subscriptions.{join, kept_piece, without_trailing, find, saved}

-- a ticker that the cache can keep: not empty and without a comma
abbrev pub IsPlain : Text → Type 0
IsPlain ticker = (ticker ≢ []) × Lacks b',' ticker

-- A ticker that passes through an address and into the tables as it is: digits and capital letters, ten
-- at most.
abbrev pub IsCode : ℕ → Type 0
IsCode c = ((48 ≤ c) × (c ≤ 57)) ⊎ ((65 ≤ c) × (c ≤ 90))

abbrev pub IsSafe : Text → Type 0
IsSafe ticker = (ticker ≢ []) × (length ticker ≤ 10) × All IsCode ticker

codes_lack : (t : Text) → All IsCode t → Lacks b',' t
codes_lack [] h = tt
codes_lack (c ∷ t) (inl k, h) = (λ e. absurd (omega (arith, k.0, e)), codes_lack t h)
codes_lack (c ∷ t) (inr k, h) = (λ e. absurd (omega (arith, k.0, e)), codes_lack t h)

pub safe-IsPlain : (t : Text) → IsSafe t → IsPlain t
safe-IsPlain t h = (h.0, codes_lack t h.2)

split-last : (sep : ℕ) (s : Text) → Lacks sep s → split sep s ≡ s ∷ []
unfolding split
split-last sep [] h = refl
split-last sep (c ∷ s) h = let h0 = h.0 in rw (split-last sep s h.1) (ground arith)

split-first : (sep : ℕ) (s t : Text) → Lacks sep s → split sep (s ++ sep ∷ t) ≡ s ∷ split sep t
unfolding split
split-first sep [] t h = ground arith
split-first sep (c ∷ s) t h = let h0 = h.0 in rw (split-first sep s t h.1) (ground arith)

split-join :
    (t : Text) (ts : List Text) → All IsPlain (t ∷ ts) → split b',' (join (t ∷ ts)) ≡ t ∷ ts
unfolding join
split-join t [] h = split-last b',' t h.0.1
split-join t (u ∷ ts) h =
    split-first b',' t (join (u ∷ ts)) h.0.1 ∙ ap (◌∷◌ t) (split-join u ts h.1)

kept_plain : (t : Text) (ts : List Text) → t ≢ [] → kept_piece t ts ≡ t ∷ ts
kept_plain [] ts h = absurd (h refl)
kept_plain (c ∷ s) ts h = refl

without_trailing-plain : (ts : List Text) → All IsPlain ts → without_trailing ts ≡ ts
without_trailing-plain [] h = refl
without_trailing-plain (t ∷ ts) h = rw (without_trailing-plain ts h.1) (kept_plain t ts h.0.0)

join-head : (t : Text) (ts : List Text) → t ≢ [] → (c : ℕ) × (s : Text) × (join (t ∷ ts) ≡ c ∷ s)
unfolding join
join-head [] ts h = absurd (h refl)
join-head (c ∷ t) [] h = (c, t, refl)
join-head (c ∷ t) (u ∷ ts) h = (c, t ++ b',' ∷ join (u ∷ ts), refl)

-- Tickers that are not empty and have no comma are found again as they were saved.
pub find-saved :
    (t : Text) (ts : List Text) → All IsPlain (t ∷ ts) → find (saved (t ∷ ts)) ≡ some (t ∷ ts)
unfolding find
find-saved t ts h =
    let (c, s, e) = join-head t ts h.0.0 in
    rw (e, ← e, split-join t ts h) (ap some (without_trailing-plain (t ∷ ts) h))
