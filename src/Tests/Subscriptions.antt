-- ===== src/Tests/Subscriptions.antt =====
-- The subscriptions of the server and the watch list of the page, at concrete inputs.
use stock_anomoly_detection.Prelude.{
  Bool, true, leb, ◌&&◌, ap, All, inl, inr, ℕ, ◌≡◌, refl, List, [], ◌∷◌, ◌++◌, Option, none, some,
  inl, arith,
}
use stock_anomoly_detection.Text.{Text, codes, decimal, split, text_eq}
use stock_anomoly_detection.Dashboard.{Item, Answer, ok}
use stock_anomoly_detection.Dashboard.Search as Search
use stock_anomoly_detection.Dashboard.Events as Events
use stock_anomoly_detection.Dashboard.Requests.{
  typed, timer_fired, subscribe_clicked, unsubscribe_clicked, live,
}
use stock_anomoly_detection.Dashboard.Server.{
  Action, acts, arrives, tickers_of, shown, go_all, drained, open_page,
}
use stock_anomoly_detection.Dashboard.Server.Draining.{answers_due}
use stock_anomoly_detection.Subscriptions.{
  User, Quote, Backend, find, join, saved, subscribe, commit, get_subscriptions, tickers_by_user,
  exists_by_user_and_ticker,
}
use stock_anomoly_detection.Subscriptions.Cache.{IsPlain, IsCode, IsSafe}
use stock_anomoly_detection.Api.Reading.{Lacks, until, until-all}
use stock_anomoly_detection.Subscriptions.Served.{
  IsCoherent, tickers, subscription_server, get_subscriptions_lem,
}
use stock_anomoly_detection.Subscriptions.Stale.{stale_cache}
use stock_anomoly_detection.Subscriptions.Shown.{page_shows_rows}
use stock_anomoly_detection.Tests.Addresses.{lacks-Lacks}
use stock_anomoly_detection.Tests.Pages.{tick}

abbrev user : User
user = record {
  id = 1;
  email = codes "user@example.com";
  kis_api_key = some (codes "app-key");
  kis_secret_key = some (codes "app-secret");
}

abbrev quotes : Text → Option Quote
quotes t = some (record {
  stck_prpr = some (codes "70000");
  acml_vol = some (codes "1000");
  prdy_vrss_sign = some (codes "5");
  prdy_vrss = some (codes "500");
  prdy_ctrt = none;
})

-- one user has Samsung, another SK hynix
abbrev backend : Backend
backend = record {
  stocks = (codes "005930", codes "Samsung") ∷ [];
  rows =
      record { user = 1; ticker = codes "005930" }
      ∷ record { user = 2; ticker = codes "000660" }
      ∷ [];
  cache = λ u. none;
  prices = λ t. none;
  app_key_to_users = [];
  kis_calls = [];
  published = [];
}

abbrev digits_only : Text → Bool
digits_only [] = true
digits_only (c ∷ t) = leb 48 c && leb c 57 && digits_only t

by_digits : (t : Text) → digits_only t ≡ true → All IsCode t
by_digits [] e = tt
by_digits (c ∷ t) e = (inl (ground arith, ground arith), by_digits t (ground arith))

-- a ticker with a comma comes out of the cache as two
comma_test : find (saved (codes "A,B" ∷ [])) ≡ some (codes "A" ∷ codes "B" ∷ [])
unfolding find join split
comma_test = refl

samsung-IsPlain : IsPlain (codes "005930")
samsung-IsPlain = (λ e. absurd (ground arith), lacks-Lacks b',' (codes "005930") refl)

hynix-IsPlain : IsPlain (codes "000660")
hynix-IsPlain = (λ e. absurd (ground arith), lacks-Lacks b',' (codes "000660") refl)

backend-IsCoherent : IsCoherent 1 backend
unfolding tickers_by_user find
backend-IsCoherent = record { plain = (samsung-IsPlain, tt); cached = tt }

samsung-IsSafe : IsSafe (codes "005930")
samsung-IsSafe = (λ e. absurd (ground arith), omega arith, by_digits (codes "005930") refl)

hynix-IsSafe : IsSafe (codes "000660")
hynix-IsSafe = (λ e. absurd (ground arith), omega arith, by_digits (codes "000660") refl)

-- the path ends at a question mark
abbrev read_path : Text → Option Text
read_path t = some (until b'?' t)

no_question : (t : Text) → All IsCode t → Lacks b'?' t
no_question [] h = tt
no_question (c ∷ t) (inl k, h) = (λ e. absurd (omega (arith, k.1, e)), no_question t h)
no_question (c ∷ t) (inr k, h) = (λ e. absurd (omega (arith, k.0, e)), no_question t h)

reads : (t : Text) → IsSafe t → read_path t ≡ some t
reads t h = ap some (until-all b'?' t (no_question t h.2))

abbrev found : Text → Answer (List Item)
found query = ok []

abbrev actions : List (Action ℕ)
actions =
    acts (typed (codes "SK"))
    ∷ acts timer_fired
    ∷ arrives 0
    ∷ acts (live (Events.ticked tick))
    ∷ acts (subscribe_clicked (codes "000660"))
    ∷ acts (unsubscribe_clicked (codes "005930"))
    ∷ arrives 0
    ∷ arrives 0
    ∷ []

page_shows_rows_example :
    (let server = subscription_server user quotes 1767195065000 found read_path reads in
      let w =
        drained decimal server
          (answers_due
            (go_all decimal server actions (open_page server (codes "abc") backend)).page.pending)
          (go_all decimal server actions (open_page server (codes "abc") backend)) in
      (w.page.pending ≡ []) × (shown w.page ≡ tickers_by_user 1 w.server.rows))
unfolding Search.subscribe
page_shows_rows_example =
    let server = subscription_server user quotes 1767195065000 found read_path reads in
    page_shows_rows decimal user quotes 1767195065000 found read_path reads b'a' (codes "bc")
      actions backend
      (answers_due
        (go_all decimal server actions (open_page server (codes "abc") backend)).page.pending)
      backend-IsCoherent
      (tt, (tt, (inl tt, (tt, (hynix-IsSafe, (samsung-IsSafe, (inl tt, (inl tt, tt))))))))
      (omega arith)

get_subscriptions_lem_example :
    (tickers_of (get_subscriptions 1 backend).1 ≡ tickers user backend)
    × (tickers user (get_subscriptions 1 backend).0 ≡ tickers user backend)
    × IsCoherent 1 (get_subscriptions 1 backend).0
get_subscriptions_lem_example = get_subscriptions_lem user backend backend-IsCoherent

stale_cache_example :
    (let work = subscribe user (codes "000660") none 1767195065000 backend in
      let done = commit work.1 (get_subscriptions 1 work.0).0 in
      (tickers user done ≡ tickers user backend ++ codes "000660" ∷ [])
      × (tickers_of (get_subscriptions 1 done).1 ≡ tickers user backend)
      × ((get_subscriptions 1 done).0 ≡ done))
unfolding exists_by_user_and_ticker tickers_by_user text_eq
stale_cache_example =
    stale_cache user none 1767195065000 (codes "000660") (codes "005930") [] backend refl refl
      (samsung-IsPlain, tt)
