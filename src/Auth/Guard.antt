-- ===== src/Auth/Guard.antt =====
-- Which pages the route guard lets through.
use stock_anomoly_detection.Prelude.{
  ◌≡◌, refl, ◌≢◌, ◌↔◌, ◌⊎◌, true, [], ◌∷◌, Option, none, some, arith,
}
use stock_anomoly_detection.Text.{Text, codes, starts_with}
use stock_anomoly_detection.Auth.{next, redirect, truthy, proxy}

-- a page that is open to everybody
abbrev pub IsPublic : Text → Type 0
IsPublic path =
    (starts_with path (codes "/auth/login") ≡ true)
    ⊎ (starts_with path (codes "/auth/signup") ≡ true)

-- The guard lets a page through exactly when it is the login or the signup page or the cookie holds
-- a token; any other page is sent to the login page, and that page is itself let through, whatever
-- the cookie, so no redirect leads to another.
pub proxy_lem :
    (path : Text) (token : Option Text)
    → ((proxy path token ≡ next) ↔ (IsPublic path ⊎ (truthy token ≢ none)))
      × ((proxy path token ≡ next) ⊎ (proxy path token ≡ redirect (codes "/auth/login")))
      × (proxy (codes "/auth/login") token ≡ next)
unfolding proxy starts_with
proxy_lem path token = (decides path token, ground arith, login token)
  where
    login : (t : Option Text) → proxy (codes "/auth/login") t ≡ next
    login t = refl

    decides : (p : Text) (t : Option Text) → (proxy p t ≡ next) ↔ (IsPublic p ⊎ (truthy t ≢ none))
    decides p none = ground arith
    decides p (some []) = ground arith
    decides p (some (c ∷ s)) = ground arith
