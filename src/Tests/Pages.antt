-- ===== src/Tests/Pages.antt =====
-- The dashboard, the forms, the guard and the profile page, at concrete inputs.
use stock_anomoly_detection.Prelude.{
  ℕ, ◌≤◌, ◌≡◌, refl, false, List, [], ◌∷◌, none, some, take, length, arith,
}
use stock_anomoly_detection.Text.{Text, codes, decimal}
use stock_anomoly_detection.Dashboard.{Stock, Dashboard, empty, listed, Tick, Alert, high, ok}
use stock_anomoly_detection.Dashboard.Events as Events
use stock_anomoly_detection.Dashboard.Stocks.{IsConsistent, run-IsConsistent}
use stock_anomoly_detection.Dashboard.Logs.{log_size, run-logs}
use stock_anomoly_detection.Auth.{Browser, redirect, truthy, log_out, raw_token, login_token}
use stock_anomoly_detection.Auth as Login
use stock_anomoly_detection.Auth.Sessions as Sessions
use stock_anomoly_detection.Auth.Tokens.{raw_token-login_token}
use stock_anomoly_detection.Profile as Profile

abbrev pub samsung : Stock
samsung =
    listed (record { ticker = codes "005930"; name = codes "Samsung"; price = none }) (codes "0")

abbrev pub hynix : Stock
hynix =
    listed (record { ticker = codes "000660"; name = codes "SK hynix"; price = none }) (codes "0")

abbrev pub page : Dashboard ℕ
page = record empty { loading = false; stocks = samsung ∷ hynix ∷ [] }

abbrev pub tick : Tick ℕ
tick = record { ticker = codes "005930"; price = 71000; change_rate = some 2; change_amount = none }

abbrev alert : Alert ℕ
alert = record {
  ticker = codes "005930";
  timestamp_ms = 1767195065000;
  zscore = 4;
  price_change_pct = 3;
  current_price = 71000;
  severity = high;
}

abbrev day_events : List (Events.Event ℕ)
day_events =
    Events.selected 0
    ∷ Events.ticked tick
    ∷ Events.alerted alert
    ∷ Events.unsubscribed (codes "000660") (ok tt)
    ∷ Events.ticked tick
    ∷ []

page-IsConsistent : IsConsistent page
unfolding listed
page-IsConsistent = record { distinct = ((ground arith, tt), (tt, tt)); agrees = tt }

run-IsConsistent_example : IsConsistent (Events.run decimal day_events page)
run-IsConsistent_example = run-IsConsistent decimal day_events page page-IsConsistent

run-logs_example :
    ((Events.run decimal day_events page).alarms ≡ take log_size (Events.alarms_of day_events []))
    × ((Events.run decimal day_events page).ai_signals
        ≡ take log_size (Events.signals_of day_events []))
    × (length (Events.run decimal day_events page).alarms ≤ log_size)
    × (length (Events.run decimal day_events page).ai_signals ≤ log_size)
run-logs_example = run-logs decimal day_events page refl refl

abbrev visitor : Browser
visitor = record {
  access_token = none;
  cookie = none;
  location = codes "/auth/login";
  alerts = [];
  loading = false;
}

-- a spelling of cookies: one more character in front
abbrev encode : Text → Text
encode t = b'%' ∷ t

abbrev decode : Text → Text
decode [] = []
decode (c ∷ t) = t

abbrev session : List Sessions.Event
session =
    Sessions.submitted
    ∷ Sessions.logged_in
        (Login.ok (record { token_type = codes "Bearer"; access_token = codes "abc" }))
    ∷ []

raw_token-login_token_example :
    raw_token (login_token (record { token_type = codes "Bearer"; access_token = codes "ab.c" }))
    ≡ some (codes "ab.c")
raw_token-login_token_example =
    raw_token-login_token (codes "ab.c")
      (ground arith, (ground arith, (ground arith, (ground arith, tt))))

abbrev filled : Profile.ProfilePage
filled = record Profile.initial {
  loading = false;
  kis_api_key = codes "key";
  kis_secret_key = codes "secret";
}
