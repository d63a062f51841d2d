-- ===== src/Auth/Tokens.antt =====
-- The token that the event stream gets.
use stock_anomoly_detection.Prelude.{ℕ, ◌≡◌, refl, ◌≢◌, [], ◌∷◌, some, All, arith}
use stock_anomoly_detection.Text.{Text, codes, starts_with, split}
use stock_anomoly_detection.Auth.{login_token, raw_token}

pub split-none : (sep : ℕ) (s : Text) → All (λ (c : ℕ). c ≢ sep) s → split sep s ≡ s ∷ []
unfolding split
split-none sep [] h = refl
split-none sep (c ∷ s) h = let h0 = h.0 in rw (split-none sep s h.1) (ground arith)

-- The token stored at a login with token type "Bearer" and an access token without spaces gives the
-- event stream that very access token.
pub raw_token-login_token :
    (token : Text)
    → All (λ (c : ℕ). c ≢ b' ') token
    → raw_token (login_token (record { token_type = codes "Bearer"; access_token = token }))
      ≡ some token
unfolding raw_token login_token split starts_with
raw_token-login_token token h = rw (split-none b' ' token h)
