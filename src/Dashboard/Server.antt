-- ===== src/Dashboard/Server.antt =====
-- The requests of web-app/app/page.tsx together with a server that answers them. The server handles
-- the requests in the order they are made; its answers are on their way for any time.
pub mod Leads
pub mod Acts
pub mod Follows
pub mod Watching
pub mod Draining
use stock_anomoly_detection.Prelude.{
  ℕ, zero, suc, ◌≡◌, Bool, not, List, [], ◌∷◌, map, Option, none, some, keep, take, All, inl, inr,
}
use stock_anomoly_detection.Prelude.{◌⊎◌}
use stock_anomoly_detection.Text.{Text, text_eq}
use stock_anomoly_detection.Dashboard.{Item, Stock, Answer, failed, not_ok, ok, empty}
use stock_anomoly_detection.Dashboard.Search.{check_token, subscribe}
use stock_anomoly_detection.Dashboard.Events as Events
use stock_anomoly_detection.Dashboard.Events.{
  get_elem?, ticked, alerted, signalled, selected, unsubscribed,
}
use stock_anomoly_detection.Dashboard.Requests.{
  Request, search, subscriptions, add, remove, LivePage, Event, typed, focused, timer_fired,
  subscribe_clicked, unsubscribe_clicked, answered, live, without, asked, step,
}

abbrev pub tickers_of : List Item → List Text
tickers_of items = map (λ (item : Item). item.ticker) items

abbrev pub drop_ticker : Text → List Text → List Text
drop_ticker ticker l = keep (λ t. not (text_eq t ticker)) l

-- What an answer says of the subscribed tickers before and after the request: they are listed as they
-- are, a removal takes its ticker out, and a request that is refused changes nothing.
abbrev pub Tells : Request → Answer (List Item) → List Text → List Text → Type 0
Tells (search query) a l l' = l' ≡ l
Tells subscriptions failed l l' = ⊥
Tells subscriptions not_ok l l' = ⊥
Tells subscriptions (ok items) l l' = (tickers_of items ≡ l) × (l' ≡ l)
Tells (add ticker) failed l l' = l' ≡ l
Tells (add ticker) not_ok l l' = l' ≡ l
Tells (add ticker) (ok body) l l' = Unit
Tells (remove ticker) failed l l' = l' ≡ l
Tells (remove ticker) not_ok l l' = l' ≡ l
Tells (remove ticker) (ok body) l l' = l' ≡ drop_ticker ticker l

-- An addition or a removal is of a ticker that the server can read and keep.
abbrev pub IsFit : (Text → Type 0) → Request → Type 0
IsFit P (search query) = Unit
IsFit P subscriptions = Unit
IsFit P (add ticker) = P ticker
IsFit P (remove ticker) = P ticker

-- A server of one user's subscriptions.
pub record Server (S : Type 0) : Type 1 where
  pub handle : Request → S → S × Answer (List Item)
  pub tickers : S → List Text
  pub IsPlain : Text → Type 0
  pub IsSound : S → Type 0
  pub handle-IsSound : (r : Request) (s : S) → IsFit IsPlain r → IsSound s → IsSound (handle r s).0
  pub handle-Tells :
      (r : Request) (s : S)
      → IsFit IsPlain r
      → IsSound s
      → Tells r (handle r s).1 (tickers s) (tickers (handle r s).0)

-- The page, the server, and the server's answers to the requests that are on their way.
pub record World (N : Type 0) (S : Type 0) : Type 0 where
  pub page : LivePage N
  pub server : S
  pub replies : List (Answer (List Item))

-- the user, the timer or the event stream acts, or the n-th answer arrives
pub data Action (N : Type 0) : Type 0 where
  acts : Event N → Action N
  arrives : ℕ → Action N

abbrev pub IsKept : (Text → Type 0) → Option Text → Type 0
IsKept P none = Unit
IsKept P (some ticker) = P ticker

-- no answer, and no addition or removal but of a ticker that the server can read and keep
abbrev pub IsOwn : {N : Type 0} → (Text → Type 0) → Event N → LivePage N → Type 0
IsOwn P (typed text) p = Unit
IsOwn P focused p = Unit
IsOwn P timer_fired p = Unit
IsOwn P (subscribe_clicked ticker) p = IsKept P (subscribe (some ticker) p.dashboard)
IsOwn P (unsubscribe_clicked ticker) p = P ticker
IsOwn P (answered n answer) p = ⊥
IsOwn P (live (ticked tick)) p = Unit
IsOwn P (live (alerted raw)) p = Unit
IsOwn P (live (signalled raw)) p = Unit
IsOwn P (live (selected n)) p = Unit
IsOwn P (live (unsubscribed ticker answer)) p = ⊥

abbrev pub IsSearch : Request → Type 0
IsSearch (search query) = Unit
IsSearch subscriptions = ⊥
IsSearch (add ticker) = ⊥
IsSearch (remove ticker) = ⊥

abbrev pub IsQuery : Option Request → Type 0
IsQuery none = Unit
IsQuery (some r) = IsSearch r

-- the n-th request is a search, or only searches are before it
abbrev pub IsNext : ℕ → List Request → Type 0
IsNext n rs = All IsSearch (take n rs) ⊎ IsQuery (get_elem? rs n)

abbrev pub shown : {N : Type 0} → LivePage N → List Text
shown p = map (λ (s : Stock). s.ticker) p.dashboard.stocks

-- the page with a token, before its first answer
abbrev pub opened : {N : Type 0} → Text → LivePage N
opened token =
    let checked = check_token (some token) empty in
    record {
      dashboard = checked.0;
      timer = some [];
      pending = asked (λ _. subscriptions) [] checked.1;
    }

module _ {S : Type 0} (server : Server S) where
  -- the server handles the requests that it has not answered
  abbrev pub settle : List Request → List (Answer (List Item)) → S → S × List (Answer (List Item))
  settle [] bs s = (s, bs)
  settle (r ∷ rs) [] s =
      let answer = server.handle r s in
      let rest = settle rs [] answer.0 in (rest.0, answer.1 ∷ rest.1)
  settle (r ∷ rs) (a ∷ bs) s = let rest = settle rs bs s in (rest.0, a ∷ rest.1)

  abbrev pub follow : {N : Type 0} → LivePage N → List (Answer (List Item)) → S → World N S
  follow p bs s =
      let settled = settle p.pending bs s in
      record { page = p; server = settled.0; replies = settled.1 }

  abbrev pub open_page : {N : Type 0} → Text → S → World N S
  open_page token s = follow (opened token) [] s

module _ {N S : Type 0} (to_text : N → Text) (server : Server S) where
  abbrev pub hear : Option (Answer (List Item)) → ℕ → World N S → World N S
  hear none n w = w
  hear (some a) n w =
      follow server (step to_text (answered n a) w.page) (without n w.replies) w.server

  abbrev pub go : Action N → World N S → World N S
  go (acts e) w = follow server (step to_text e w.page) w.replies w.server
  go (arrives n) w = hear (get_elem? w.replies n) n w

  abbrev pub go_all : List (Action N) → World N S → World N S
  go_all [] w = w
  go_all (x ∷ xs) w = go_all xs (go x w)

  -- the first answer arrives, k times over
  abbrev pub drained : ℕ → World N S → World N S
  drained zero w = w
  drained (suc k) w = drained k (go (arrives 0) w)

  abbrev pub IsOrdered : Action N → World N S → Type 0
  IsOrdered (acts e) w = IsOwn server.IsPlain e w.page
  IsOrdered (arrives n) w = IsNext n w.page.pending

  -- The answers to all requests but the searches arrive in the order of the requests, and the tickers
  -- that are added or removed are such as the server can read and keep.
  abbrev pub AreOrdered : List (Action N) → World N S → Type 0
  AreOrdered [] w = Unit
  AreOrdered (x ∷ xs) w = IsOrdered x w × AreOrdered xs (go x w)
