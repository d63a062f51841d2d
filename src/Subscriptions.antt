-- ===== src/Subscriptions.antt =====
-- The subscriptions of the server: SubscriptionService.java, SubscriptionController.java,
-- SubscriptionCacheRedisRepository.java and StockPriceRedisRepository.java of api-server. The database
-- and Redis are the rows and the values that they keep. A request runs in a transaction: what it writes
-- to the database is seen by others when it is committed, what it writes to Redis at once. `now` is
-- System.currentTimeMillis(), and a `Quote` is the output of the price inquiry at KIS, none where there is
-- no access token, no output or an exception. No other request for the same subscription is made between
-- the check and the insertion of `subscribe`, so its unique constraint holds. The volume of an answer's
-- item, which the page does not read, is left out, and so is `initSubscriptions`.
pub mod Cache
pub mod Rows
pub mod Served
pub mod Stale
pub mod Shown
use stock_anomoly_detection.Prelude.{
  ℕ, zero, suc, Bool, true, false, not, ◌&&◌, ◌||◌, List, [], ◌∷◌, ◌++◌, map, Option, none, some,
  keep, ltb, ◌==◌, if◌then◌else◌,
}
use stock_anomoly_detection.Text.{Text, codes, text_eq, split}
use stock_anomoly_detection.Dashboard.{Item, Answer, not_ok, ok}

pub record User : Type 0 where
  pub id : ℕ
  pub email : Text
  pub kis_api_key : Option Text
  pub kis_secret_key : Option Text

pub record Subscription : Type 0 where
  pub user : ℕ
  pub ticker : Text

pub record StockTick : Type 0 where
  pub ticker : Text
  pub price : Option Text
  pub volume : Option Text
  pub timestamp : ℕ
  pub owner_email : Option Text
  pub change_amount : Text
  pub change_rate : Text

pub record Quote : Type 0 where
  pub stck_prpr : Option Text
  pub acml_vol : Option Text
  pub prdy_vrss_sign : Option Text
  pub prdy_vrss : Option Text
  pub prdy_ctrt : Option Text

pub data KisCall : Type 0 where
  kis_subscribe : Option Text → Option Text → List Text → KisCall
  kis_unsubscribe : Option Text → Option Text → List Text → KisCall

-- What a transaction writes to the database.
pub data Write : Type 0 where
  insert_stock : Text → Text → Write
  insert_subscription : Subscription → Write
  delete_subscription : ℕ → Text → Write

-- The tables `stocks` (a ticker and its name) and `subscriptions`, the values of
-- "user:subscriptions:<id>" and the fields "price" of "stock:price:<ticker>" in Redis, `appKeyToUsers`,
-- the calls of KisWebSocketClient and the published ticks.
pub record Backend : Type 0 where
  pub stocks : List (Text × Text)
  pub rows : List Subscription
  pub cache : ℕ → Option Text
  pub prices : Text → Option Text
  pub app_key_to_users : List (Text × Text)
  pub kis_calls : List KisCall
  pub published : List StockTick

-- `String.join(",", tickers)`
unfoldable pub join : List Text → Text
join [] = []
join (t ∷ []) = t
join (t ∷ u ∷ ts) = t ++ b',' ∷ join (u ∷ ts)

abbrev pub kept_piece : Text → List Text → List Text
kept_piece [] [] = []
kept_piece [] (u ∷ us) = [] ∷ u ∷ us
kept_piece (c ∷ s) us = (c ∷ s) ∷ us

-- Java's split leaves out the empty pieces at the end.
abbrev pub without_trailing : List Text → List Text
without_trailing [] = []
without_trailing (t ∷ ts) = kept_piece t (without_trailing ts)

-- `find` of the cache, of the value that Redis has
unfoldable pub find : Option Text → Option (List Text)
find none = none
find (some []) = none
find (some (c ∷ value)) = some (without_trailing (split b',' (c ∷ value)))

abbrev pub put : {A : Type 0} → ℕ → A → (ℕ → A) → ℕ → A
put u x cache v = if v == u then x else cache v

-- the value that `save` of the cache leaves
abbrev pub saved : List Text → Option Text
saved [] = none
saved (t ∷ ts) = some (join (t ∷ ts))

unfoldable pub save : ℕ → List Text → Backend → Backend
save u tickers b = record b { cache = put u (saved tickers) b.cache }

unfoldable pub evict : ℕ → Backend → Backend
evict u b = record b { cache = put u none b.cache }

abbrev pub is_of : ℕ → Subscription → Bool
is_of u r = r.user == u

abbrev pub is_row : ℕ → Text → Subscription → Bool
is_row u ticker r = r.user == u && text_eq r.ticker ticker

-- the tickers of `findAllByUser`
unfoldable pub tickers_by_user : ℕ → List Subscription → List Text
tickers_by_user u rows = map (λ (r : Subscription). r.ticker) (keep (is_of u) rows)

unfoldable pub exists_by_user_and_ticker : ℕ → Text → List Subscription → Bool
exists_by_user_and_ticker u ticker [] = false
exists_by_user_and_ticker u ticker (r ∷ rs) =
    is_row u ticker r || exists_by_user_and_ticker u ticker rs

-- `findById` on the stocks
abbrev pub name_of : Text → List (Text × Text) → Option Text
name_of ticker [] = none
name_of ticker ((t, name) ∷ stocks) =
    let rest = name_of ticker stocks in if text_eq t ticker then some name else rest

abbrev pub or_else : {A : Type 0} → Option A → A → A
or_else none a = a
or_else (some b) a = b

abbrev pub stock_name : Text → Text
stock_name ticker = codes "주식 " ++ ticker

abbrev pub new_stock : Option Text → Text → List Write
new_stock none ticker = insert_stock ticker (stock_name ticker) ∷ []
new_stock (some name) ticker = []

-- `changeAmount` and `changeRate`
unfoldable pub signed : Option Text → Option Text → Text
signed sign none = codes "0"
signed none (some v) = v
signed (some sign) (some v) =
    if text_eq sign (codes "3")
    then codes "0"
    else (if text_eq sign (codes "4") || text_eq sign (codes "5") then b'-' ∷ v else v)

unfoldable pub fetch_initial_price : User → Text → Option Quote → ℕ → Backend → Backend
fetch_initial_price user ticker none now b = b
fetch_initial_price user ticker (some q) now b = record b {
  prices = λ t. if text_eq t ticker then some (or_else q.stck_prpr (codes "0")) else b.prices t;
  published =
      b.published
      ++ record {
        ticker = ticker;
        price = q.stck_prpr;
        volume = q.acml_vol;
        timestamp = now;
        owner_email = user.kis_api_key;
        change_amount = signed q.prdy_vrss_sign q.prdy_vrss;
        change_rate = signed q.prdy_vrss_sign q.prdy_ctrt;
      }
        ∷ [];
}

abbrev pub has_pair : Text → Text → List (Text × Text) → Bool
has_pair key email [] = false
has_pair key email ((k, e) ∷ pairs) = text_eq k key && text_eq e email || has_pair key email pairs

unfoldable pub register_app_key : Option Text → Text → Backend → Backend
register_app_key none email b = b
register_app_key (some key) email b = record b {
  app_key_to_users =
      if has_pair key email b.app_key_to_users
      then b.app_key_to_users
      else b.app_key_to_users ++ (key, email) ∷ [];
}

abbrev pub call_kis : KisCall → Backend → Backend
call_kis c b = record b { kis_calls = b.kis_calls ++ c ∷ [] }

-- `subscribe` before its transaction is committed
unfoldable pub subscribe : User → Text → Option Quote → ℕ → Backend → Backend × List Write
subscribe user ticker quote now b =
    if exists_by_user_and_ticker user.id ticker b.rows then (b, []) else (
      call_kis (kis_subscribe user.kis_api_key user.kis_secret_key (ticker ∷ [])) (
          fetch_initial_price user ticker quote now
            (register_app_key user.kis_api_key user.email (evict user.id b))),
      new_stock (name_of ticker b.stocks) ticker
          ++ insert_subscription (record { user = user.id; ticker = ticker }) ∷ [],
    )

-- The end of `unsubscribe`: for a user without a key KisWebSocketClient looks for a session of null,
-- which a ConcurrentHashMap answers with a NullPointerException.
abbrev pub tear_down : Option Text → Option Text → Text → Backend → Option Backend
tear_down none secret ticker b = none
tear_down (some key) secret ticker b =
    some (call_kis (kis_unsubscribe (some key) secret (ticker ∷ [])) b)

-- what `unsubscribe` leaves, and what is committed; an exception rolls its transaction back
abbrev pub or_rolled_back : List Write → Backend → Option Backend → Backend × Option (List Write)
or_rolled_back ws b none = (b, none)
or_rolled_back ws b (some b') = (b', some ws)

-- `unsubscribe` before its transaction is committed, or rolled back
unfoldable pub unsubscribe : User → Text → Backend → Backend × Option (List Write)
unsubscribe user ticker b =
    let evicted = evict user.id b in
    or_rolled_back (delete_subscription user.id ticker ∷ []) evicted
      (tear_down user.kis_api_key user.kis_secret_key ticker evicted)

abbrev pub write : Write → Backend → Backend
write (insert_stock ticker name) b = record b { stocks = b.stocks ++ (ticker, name) ∷ [] }
write (insert_subscription r) b = record b { rows = b.rows ++ r ∷ [] }
write (delete_subscription u ticker) b = record b {
  rows = keep (λ r. not (is_row u ticker r)) b.rows;
}

unfoldable pub commit : List Write → Backend → Backend
commit [] b = b
commit (w ∷ ws) b = commit ws (write w b)

-- an item of the answer
unfoldable pub response : Backend → Text → Item
response b ticker = record {
  ticker = ticker;
  name = or_else (name_of ticker b.stocks) (stock_name ticker);
  price = some (or_else (b.prices ticker) (codes "0"));
}

-- the tickers of the cache, or else of the database, which are then cached
abbrev pub cached_tickers : ℕ → Option (List Text) → Backend → List Text × Backend
cached_tickers u (some tickers) b = (tickers, b)
cached_tickers u none b = let from_db = tickers_by_user u b.rows in (from_db, save u from_db b)

unfoldable pub get_subscriptions : ℕ → Backend → Backend × List Item
get_subscriptions u b =
    let found = cached_tickers u (find (b.cache u)) b in (found.1, map (response b) found.0)

-- `@NotBlank`: a character behind the space
abbrev pub is_blank : Text → Bool
is_blank [] = true
is_blank (c ∷ s) = not (ltb 32 c) && is_blank s

-- the POST request of SubscriptionController
unfoldable pub post_subscription :
    User → Text → Option Quote → ℕ → Backend → Backend × Answer (List Item)
post_subscription user ticker quote now b =
    let done = subscribe user ticker quote now b in
    if is_blank ticker then (b, not_ok) else (commit done.1 done.0, ok [])

abbrev pub end_delete : Backend × Option (List Write) → Backend × Answer (List Item)
end_delete (b, none) = (b, not_ok)
end_delete (b, some ws) = (commit ws b, ok [])

-- the DELETE request, of the ticker that is read in its path
unfoldable pub delete_subscription_request :
    User → Option Text → Backend → Backend × Answer (List Item)
delete_subscription_request user none b = (b, not_ok)
delete_subscription_request user (some ticker) b = end_delete (unsubscribe user ticker b)

-- the GET request
unfoldable pub get_subscriptions_request : User → Backend → Backend × Answer (List Item)
get_subscriptions_request user b = let got = get_subscriptions user.id b in (got.0, ok got.1)
