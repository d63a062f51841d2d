-- ===== src/Streams.antt =====
-- The event streams of the server: SseService.java of api-server and what the Kafka consumers give it.
-- A connection is a number. `ends c n` says how a send on the connection `c` ends, n sends having
-- succeeded before.
pub mod Wired
pub mod Received
pub mod Deaf
pub mod Aborted
use stock_anomoly_detection.Prelude.{
  ℕ, ◌+◌, Bool, true, false, not, ◌&&◌, List, [], ◌∷◌, ◌++◌, map, Option, none, some, keep, length,
  ◌==◌, if◌then◌else◌,
}
use stock_anomoly_detection.Text.{Text, text_eq}
use stock_anomoly_detection.Subscriptions.{StockTick}

-- The data of an event; an alert and a signal are passed on as they are.
pub data Payload : Type 0 where
  connected : Payload
  stock_tick : StockTick → Payload
  anomaly_alert : Text → Payload
  ai_signal : Text → Payload

-- `emitters`, the number of the next connection, and what has been sent on which connection.
pub record SseService : Type 0 where
  pub emitters : List (Text × ℕ)
  pub next_connection : ℕ
  pub sent : List (ℕ × Payload)

-- `emitters.remove(email)`
unfoldable pub remove_emitter : Text → List (Text × ℕ) → List (Text × ℕ)
remove_emitter email l = keep (λ (x : Text × ℕ). not (text_eq x.0 email)) l

-- `emitters.put(email, emitter)`
unfoldable pub put_emitter : Text → ℕ → List (Text × ℕ) → List (Text × ℕ)
put_emitter email c l = remove_emitter email l ++ (email, c) ∷ []

-- `emitters.get(email)`
abbrev pub get_emitter : Text → List (Text × ℕ) → Option ℕ
get_emitter email [] = none
get_emitter email ((e, c) ∷ l) =
    let rest = get_emitter email l in if text_eq e email then some c else rest

-- `getUsersByAppKey` of SubscriptionService.java
unfoldable pub get_users_by_app_key : Text → List (Text × Text) → List Text
get_users_by_app_key key pairs =
    map (λ (x : Text × Text). x.1) (keep (λ (x : Text × Text). text_eq x.0 key) pairs)

-- A browser connects, a stream of a user completes or breaks, or a consumer gets a message, a tick with
-- `appKeyToUsers` as it is then.
pub data Event : Type 0 where
  opened : Text → Event
  ended : Text → Event
  ticked : List (Text × Text) → StockTick → Event
  alerted : Text → Event
  signalled : Text → Event

-- How a send ends. Of the exceptions SseService catches the IOException; an IllegalStateException, as of
-- an emitter that is complete, leaves its loop and ends the consumer's work on the message.
pub data Sending : Type 0 where
  delivered io_exception illegal_state : Sending

abbrev pub attempt : Sending → Text × ℕ → Payload → SseService → SseService × Bool
attempt delivered (email, c) p s = (record s { sent = s.sent ++ (c, p) ∷ [] }, true)
attempt io_exception (email, c) p s =
    (record s { emitters = remove_emitter email s.emitters }, true)
attempt illegal_state x p s = (s, false)

-- what follows is left out after an exception
abbrev pub and_then : SseService × Bool → (SseService → SseService × Bool) → SseService × Bool
and_then (s, true) f = f s
and_then (s, false) f = (s, false)

-- the first event of a connection; the emitter stays after any exception
abbrev pub welcome : Sending → ℕ → SseService → SseService
welcome delivered c s = record s { sent = s.sent ++ (c, connected) ∷ [] }
welcome io_exception c s = s
welcome illegal_state c s = s

module _ (ends : ℕ → ℕ → Sending) where
  -- with false where an exception is thrown
  unfoldable pub send : Text × ℕ → Payload → SseService → SseService × Bool
  send x p s = attempt (ends x.1 (length s.sent)) x p s

  -- `emitters.forEach`
  abbrev pub send_all : List (Text × ℕ) → Payload → SseService → SseService × Bool
  send_all [] p s = (s, true)
  send_all (x ∷ l) p s = and_then (send x p s) (send_all l p)

  -- `broadcast`, `broadcastAnomaly` and `broadcastAiSignal`
  unfoldable pub broadcast : Payload → SseService → SseService × Bool
  broadcast p s = send_all s.emitters p s

  abbrev pub send_if : Text → Option ℕ → Payload → SseService → SseService × Bool
  send_if email none p s = (s, true)
  send_if email (some c) p s = send (email, c) p s

  unfoldable pub send_to_user : Text → Payload → SseService → SseService × Bool
  send_to_user email p s = send_if email (get_emitter email s.emitters) p s

  abbrev pub send_to_users : List Text → Payload → SseService → SseService × Bool
  send_to_users [] p s = (s, true)
  send_to_users (email ∷ emails) p s = and_then (send_to_user email p s) (send_to_users emails p)

  -- the tick goes to all who are connected, or to the users of its key
  abbrev pub push_tick : Option Text → List (Text × Text) → Payload → SseService → SseService × Bool
  push_tick none pairs p s = broadcast p s
  push_tick (some key) pairs p s = send_to_users (get_users_by_app_key key pairs) p s

  abbrev pub greet : ℕ → SseService → SseService
  greet c s = welcome (ends c (length s.sent)) c s

  -- `subscribe`
  unfoldable pub subscribe : Text → SseService → SseService
  subscribe email s = greet s.next_connection (record s {
    emitters = put_emitter email s.next_connection s.emitters;
    next_connection = s.next_connection + 1;
  })

  unfoldable pub step : Event → SseService → SseService
  step (opened email) s = subscribe email s
  step (ended email) s = record s { emitters = remove_emitter email s.emitters }
  step (ticked pairs tick) s = (push_tick tick.owner_email pairs (stock_tick tick) s).0
  step (alerted alert) s = (broadcast (anomaly_alert alert) s).0
  step (signalled signal) s = (broadcast (ai_signal signal) s).0

  unfoldable pub run : List Event → SseService → SseService
  run [] s = s
  run (e ∷ es) s = run es (step e s)

-- what has been sent on a connection
abbrev pub received : ℕ → List (ℕ × Payload) → List Payload
received c [] = []
received c ((d, p) ∷ l) = let rest = received c l in if d == c then p ∷ rest else rest

-- what an event has for a user
abbrev pub tick_for : Text → Option Text → List (Text × Text) → Payload → List Payload
tick_for email none pairs p = p ∷ []
tick_for email (some key) pairs p =
    map (λ _. p) (keep (λ (x : Text × Text). text_eq x.0 key && text_eq x.1 email) pairs)

abbrev pub payloads_for : Text → Event → List Payload
payloads_for email (opened e) = []
payloads_for email (ended e) = []
payloads_for email (ticked pairs tick) = tick_for email tick.owner_email pairs (stock_tick tick)
payloads_for email (alerted alert) = anomaly_alert alert ∷ []
payloads_for email (signalled signal) = ai_signal signal ∷ []

abbrev pub all_payloads_for : Text → List Event → List Payload
all_payloads_for email [] = []
all_payloads_for email (e ∷ es) = payloads_for email e ++ all_payloads_for email es
