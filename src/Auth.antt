-- ===== src/Auth.antt =====
-- Signing in and out: web-app/app/auth/login/page.tsx, web-app/app/auth/signup/page.tsx, the token
-- handling of web-app/app/page.tsx, and the route guard web-app/proxy.ts. The browser's storage,
-- cookie and location are a state; the server's answers are arguments.
pub mod Guard
pub mod Matcher
pub mod Tokens
pub mod Sessions
use stock_anomoly_detection.Prelude.{
  ℕ, ◌≡◌, refl, Bool, true, false, not, ◌||◌, List, [], ◌∷◌, ◌++◌, Option, none, some,
  if◌then◌else◌,
}
use stock_anomoly_detection.Text.{Text, codes, starts_with, split}

pub data Alert : Type 0 where
  login_failed : Alert
  no_connection : Alert
  signed_up : Alert
  signup_failed : Alert
  server_says : Text → Alert

-- `accessToken` in the local storage and in the cookie, the page, and the alerts, latest in front.
pub record Browser : Type 0 where
  pub access_token : Option Text
  pub cookie : Option Text
  pub location : Text
  pub alerts : List Alert
  pub loading : Bool

-- the body of the answer of /auth/login
pub record LoginData : Type 0 where
  pub token_type : Text
  pub access_token : Text

pub data LoginAnswer : Type 0 where
  failed : LoginAnswer
  not_ok : LoginAnswer
  ok : LoginData → LoginAnswer

-- `${data.tokenType} ${data.accessToken}`
unfoldable pub login_token : LoginData → Text
login_token d = d.token_type ++ b' ' ∷ d.access_token

abbrev pub say : Alert → Browser → Browser
say a b = record b { alerts = a ∷ b.alerts }

-- The login page's `handleSubmit`, from its `await` on; `encode` is `encodeURIComponent`.
unfoldable pub log_in : (Text → Text) → LoginAnswer → Browser → Browser
log_in encode failed b = record (say no_connection b) { loading = false }
log_in encode not_ok b = record (say login_failed b) { loading = false }
log_in encode (ok d) b = record b {
  access_token = some (login_token d);
  cookie = some (encode (login_token d));
  location = codes "/";
  loading = false;
}

-- `handleSubmit` up to its `await`, on the login and the signup page
unfoldable pub submit : Browser → Browser
submit b = record b { loading = true }

-- a text read as a condition: null and "" are false
abbrev pub truthy : Option Text → Option Text
truthy none = none
truthy (some []) = none
truthy (some (c ∷ s)) = some (c ∷ s)

-- `handleLogout`: whether the server is told, and the browser afterwards; its answer is ignored
unfoldable pub log_out : Browser → Option Text × Browser
log_out b = (
  truthy b.access_token,
  record b { access_token = none; cookie = none; location = codes "/auth/login" },
)

-- the token of the event stream: `token.startsWith("Bearer ") ? token.split(' ')[1] : token`
abbrev pub second : List Text → Option Text
second [] = none
second (a ∷ []) = none
second (a ∷ b ∷ rest) = some b

unfoldable pub raw_token : Text → Option Text
raw_token token =
    if starts_with token (codes "Bearer ") then second (split b' ' token) else some token

-- the rest of the dashboard's first effect, given the token
abbrev pub opened : Option Text → Browser → Browser × Option (Option Text)
opened none b = (record b { location = codes "/auth/login" }, none)
opened (some token) b = (b, some (raw_token token))

-- The dashboard's first effect: without a token to the login page, else the event stream is opened.
unfoldable pub enter : Browser → Browser × Option (Option Text)
enter b = opened (truthy b.access_token) b

-- `signup/page.tsx`: the answer of /users/signup, with the text of an error
pub data SignupAnswer : Type 0 where
  unreachable : SignupAnswer
  refused : Text → SignupAnswer
  accepted : SignupAnswer

abbrev pub refusal : Text → Alert
refusal [] = signup_failed
refusal (c ∷ s) = server_says (c ∷ s)

-- The signup page's `handleSubmit`, from its `await` on.
unfoldable pub sign_up : SignupAnswer → Browser → Browser
sign_up unreachable b = record (say no_connection b) { loading = false }
sign_up (refused text) b = record (say (refusal text) b) { loading = false }
sign_up accepted b = record (say signed_up b) { location = codes "/auth/login"; loading = false }

-- what `proxy` returns
pub data Verdict : Type 0 where
  next : Verdict
  redirect : Text → Verdict

abbrev pub require : Option Text → Verdict
require none = redirect (codes "/auth/login")
require (some t) = next

-- `proxy`, from the path and the decoded value of the cookie
unfoldable pub proxy : Text → Option Text → Verdict
proxy pathname access_token =
    if starts_with pathname (codes "/auth/login") || starts_with pathname (codes "/auth/signup")
    then next
    else require (truthy access_token)
