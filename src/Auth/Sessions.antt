-- ===== src/Auth/Sessions.antt =====
-- The token in the local storage and the cookie go together. `encode` is `encodeURIComponent`, and
-- `decode` what the framework does to a cookie's value before `proxy` sees it.
use stock_anomoly_detection.Prelude.{◌≡◌, false, ◌||◌, List, [], ◌∷◌, Option, none, some}
use stock_anomoly_detection.Text.{Text, codes, starts_with}
use stock_anomoly_detection.Auth.{
  Browser, LoginAnswer, SignupAnswer, submit, log_in, log_out, sign_up, enter, proxy, redirect,
}

pub data Event : Type 0 where
  submitted : Event
  logged_in : LoginAnswer → Event
  logged_out : Event
  signed_up : SignupAnswer → Event
  entered : Event

abbrev pub map_option : {A B : Type 0} → (A → B) → Option A → Option B
map_option f none = none
map_option f (some a) = some (f a)

unfoldable pub step : (Text → Text) → Event → Browser → Browser
step encode submitted b = submit b
step encode (logged_in answer) b = log_in encode answer b
step encode logged_out b = (log_out b).1
step encode (signed_up answer) b = sign_up answer b
step encode entered b = (enter b).0

unfoldable pub run : (Text → Text) → List Event → Browser → Browser
run encode [] b = b
run encode (e ∷ es) b = run encode es (step encode e b)

module _ (encode decode : Text → Text) (decode-encode : (t : Text) → decode (encode t) ≡ t) where
  -- the decoded cookie is the stored token
  abbrev pub IsPaired : Browser → Type 0
  IsPaired b = map_option decode b.cookie ≡ b.access_token

  -- Once logged out no page but the login and signup pages is let through.
  pub proxy-log_out :
      (b : Browser) (path : Text)
      → (starts_with path (codes "/auth/login") || starts_with path (codes "/auth/signup")) ≡ false
      → proxy path (map_option decode (log_out b).1.cookie) ≡ redirect (codes "/auth/login")
  unfolding log_out proxy
  proxy-log_out b path h = rw h
