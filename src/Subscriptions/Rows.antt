-- ===== src/Subscriptions/Rows.antt =====
-- The tickers of a user in the rows that SubscriptionService.java reads and writes.
use stock_anomoly_detection.Prelude.{
  ℕ, ◌≡◌, refl, ap, not, List, [], ◌∷◌, ◌++◌, map, keep, All, ◌==◌, Bool-cases, if_cases, inl, inr,
  arith,
}
use stock_anomoly_detection.Text.{Text, text_eq}
use stock_anomoly_detection.Dashboard.Server.{tickers_of, drop_ticker}
use stock_anomoly_detection.Subscriptions.{
  Subscription, Backend, put, is_row, tickers_by_user, response,
}

pub put-same : {A : Type 0} (u : ℕ) (x : A) (f : ℕ → A) → put u x f u ≡ x
put-same u x f = ground arith

pub tickers-append :
    (u : ℕ) (t : Text) (rows : List Subscription)
    → tickers_by_user u (rows ++ record { user = u; ticker = t } ∷ [])
      ≡ tickers_by_user u rows ++ t ∷ []
unfolding tickers_by_user
tickers-append u t [] = ground arith
tickers-append u t (r ∷ rows) = elim (Bool-cases (r.user == u)) [
  | inl e ↦ rw e (ap (◌∷◌ r.ticker) (tickers-append u t rows))
  | inr e ↦ rw e (tickers-append u t rows)
]

pub tickers-delete :
    (u : ℕ) (t : Text) (rows : List Subscription)
    → tickers_by_user u (keep (λ r. not (is_row u t r)) rows)
      ≡ drop_ticker t (tickers_by_user u rows)
unfolding tickers_by_user
tickers-delete u t [] = refl
tickers-delete u t (r ∷ rows) = elim (Bool-cases (r.user == u)) [
  | inl e ↦ elim (Bool-cases (text_eq r.ticker t)) [
    | inl e' ↦ rw (e, e') (tickers-delete u t rows)
    | inr e' ↦ rw (e, e') (rw e (ap (◌∷◌ r.ticker) (tickers-delete u t rows)))
  ]
  | inr e ↦ rw e (rw e (tickers-delete u t rows))
]

pub drop-All : (P : Text → Type 0) (t : Text) (l : List Text) → All P l → All P (drop_ticker t l)
drop-All P t [] h = tt
drop-All P t (u ∷ l) h =
    if_cases (All P) (not (text_eq u t)) (λ _. (h.0, drop-All P t l h.1)) (λ _. drop-All P t l h.1)

pub tickers-response : (b : Backend) (l : List Text) → tickers_of (map (response b) l) ≡ l
unfolding response
tickers-response b [] = refl
tickers-response b (t ∷ l) = ap (◌∷◌ t) (tickers-response b l)
