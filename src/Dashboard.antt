-- ===== src/Dashboard.antt =====
-- The state of web-app/app/page.tsx and its handlers: the watch list, the live events, the search
-- box and the subscriptions. `N` is JavaScript's numbers as JSON brings them, and `to_text` is
-- `String(n)`.
pub mod Search
pub mod Events
pub mod Stocks
pub mod Logs
pub mod Requests
pub mod Server
use stock_anomoly_detection.Prelude.{
  ℕ, ◌≡◌, refl, Bool, true, false, not, ◌&&◌, ◌||◌, List, [], ◌∷◌, ◌++◌, map, Option, none, some,
  take, keep, length, ltb, if◌then◌else◌,
}
use stock_anomoly_detection.Text.{Text, codes, text_eq, decimal}

-- `Stock` of components/dashboard/stock-list.tsx
pub record Stock : Type 0 where
  pub id : Text
  pub ticker : Text
  pub name : Text
  pub price : Text
  pub change : Text
  pub change_amount : Text
  pub status : Text

pub data Severity : Type 0 where
  high medium low : Severity

pub data Direction : Type 0 where
  buy_ready sell_ready neutral : Direction

-- `AlarmEntry` of components/dashboard/alarm-log.tsx; a date is its milliseconds
pub record AlarmEntry (N : Type 0) : Type 0 where
  pub id : Text
  pub timestamp : ℕ
  pub ticker : Text
  pub zscore : N
  pub price_change_pct : N
  pub current_price : N
  pub severity : Severity

-- `AiSignalEntry` of components/dashboard/ai-signal-log.tsx
pub record AiSignalEntry (N : Type 0) : Type 0 where
  pub id : Text
  pub timestamp : ℕ
  pub ticker : Text
  pub close : N
  pub bull_probability : N
  pub bear_probability : N
  pub direction : Direction

pub record Dashboard (N : Type 0) : Type 0 where
  pub selected_stock : Option Stock
  pub loading : Bool
  pub stocks : List Stock
  pub alarms : List (AlarmEntry N)
  pub ai_signals : List (AiSignalEntry N)
  pub new_ticker : Text
  pub search_results : List Stock
  pub show_search_results : Bool

abbrev pub empty : {N : Type 0} → Dashboard N
empty = record {
  selected_stock = none;
  loading = true;
  stocks = [];
  alarms = [];
  ai_signals = [];
  new_ticker = [];
  search_results = [];
  show_search_results = false;
}

-- `a || b` on texts, where null is none
abbrev pub text_or : Option Text → Text → Text
text_or none b = b
text_or (some []) b = b
text_or (some (c ∷ s)) b = c ∷ s

-- An item of the answers of /subscriptions and /stocks/search; an absent field is none.
pub record Item : Type 0 where
  pub ticker : Text
  pub name : Text
  pub price : Option Text

unfoldable pub listed : Item → Text → Stock
listed item price = record {
  id = item.ticker;
  ticker = item.ticker;
  name = item.name;
  price = price;
  change = codes "0.00%";
  change_amount = codes "0";
  status = codes "stable";
}

-- `item.price && item.price !== "0" ? item.price : "0"`
unfoldable pub subscribed_price : Option Text → Text
subscribed_price none = codes "0"
subscribed_price (some []) = codes "0"
subscribed_price (some (c ∷ s)) = if not (text_eq (c ∷ s) (codes "0")) then c ∷ s else codes "0"

-- An answer of the server: an exception, an error status, or a body.
pub data Answer (A : Type 0) : Type 0 where
  failed : Answer A
  not_ok : Answer A
  ok : A → Answer A

-- The payload of a "stock-tick" event.
pub record Tick (N : Type 0) : Type 0 where
  pub ticker : Text
  pub price : N
  pub change_rate : Option N
  pub change_amount : Option N

-- The payload of an "anomaly-alert" event.
pub record Alert (N : Type 0) : Type 0 where
  pub ticker : Text
  pub timestamp_ms : ℕ
  pub zscore : N
  pub price_change_pct : N
  pub current_price : N
  pub severity : Severity

-- The payload of an "ai-signal" event.
pub record Signal (N : Type 0) : Type 0 where
  pub ticker : Text
  pub timestamp_ms : ℕ
  pub close : N
  pub bull_probability : N
  pub bear_probability : N
  pub direction : Direction

abbrev pub log_limit : ℕ
log_limit = 49

abbrev pub event_id : Text → ℕ → Text
event_id ticker timestamp_ms = ticker ++ b'-' ∷ decimal timestamp_ms

abbrev pub changed : {N : Type 0} → (N → Text) → Text → Option N → Text → Text
changed to_text suffix none old = old
changed to_text suffix (some n) old = to_text n ++ suffix

-- what a tick does to the stock of its ticker
unfoldable pub updated : {N : Type 0} → (N → Text) → Tick N → Stock → Stock
updated to_text tick stock = record stock {
  price = to_text tick.price;
  change = changed to_text (codes "%") tick.change_rate stock.change;
  change_amount = changed to_text [] tick.change_amount stock.change_amount;
}

unfoldable pub update_stock : {N : Type 0} → (N → Text) → Tick N → Stock → Stock
update_stock to_text tick stock =
    if not (text_eq stock.ticker tick.ticker) then stock else updated to_text tick stock

abbrev pub map_option : {A B : Type 0} → (A → B) → Option A → Option B
map_option f none = none
map_option f (some a) = some (f a)

-- the "stock-tick" listener
unfoldable pub on_stock_tick : {N : Type 0} → (N → Text) → Tick N → Dashboard N → Dashboard N
on_stock_tick to_text tick d = record d {
  stocks = map (update_stock to_text tick) d.stocks;
  selected_stock = map_option (update_stock to_text tick) d.selected_stock;
}

-- the "anomaly-alert" listener
unfoldable pub to_alarm : {N : Type 0} → Alert N → AlarmEntry N
to_alarm raw = record {
  id = event_id raw.ticker raw.timestamp_ms;
  timestamp = raw.timestamp_ms;
  ticker = raw.ticker;
  zscore = raw.zscore;
  price_change_pct = raw.price_change_pct;
  current_price = raw.current_price;
  severity = raw.severity;
}

unfoldable pub on_anomaly_alert : {N : Type 0} → Alert N → Dashboard N → Dashboard N
on_anomaly_alert raw d = record d { alarms = to_alarm raw ∷ take log_limit d.alarms }

-- the "ai-signal" listener
unfoldable pub to_signal : {N : Type 0} → Signal N → AiSignalEntry N
to_signal raw = record {
  id = event_id raw.ticker raw.timestamp_ms;
  timestamp = raw.timestamp_ms;
  ticker = raw.ticker;
  close = raw.close;
  bull_probability = raw.bull_probability;
  bear_probability = raw.bear_probability;
  direction = raw.direction;
}

unfoldable pub on_ai_signal : {N : Type 0} → Signal N → Dashboard N → Dashboard N
on_ai_signal raw d = record d { ai_signals = to_signal raw ∷ take log_limit d.ai_signals }

-- `onSelectStock`
unfoldable pub select_stock : {N : Type 0} → Stock → Dashboard N → Dashboard N
select_stock stock d = record d { selected_stock = some stock }
