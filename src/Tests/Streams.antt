-- ===== src/Tests/Streams.antt =====
-- The event streams of the server, at concrete inputs.
use stock_anomoly_detection.Prelude.{
  ℕ, ◌≡◌, refl, if◌then◌else◌, ◌==◌, List, [], ◌∷◌, ◌++◌, none, some, inl, arith,
}
use stock_anomoly_detection.Text.{Text, codes, text_eq}
use stock_anomoly_detection.Subscriptions.{StockTick}
use stock_anomoly_detection.Streams.{
  Sending, delivered, illegal_state, SseService, get_users_by_app_key, Event, opened, ended, ticked,
  alerted, run, step, received, all_payloads_for, stock_tick, anomaly_alert,
}
use stock_anomoly_detection.Streams.Received.{received-run}
use stock_anomoly_detection.Streams.Deaf.{second_stream_silent}
use stock_anomoly_detection.Streams.Aborted.{alert_missed}

abbrev works : ℕ → ℕ → Sending
works c n = delivered

abbrev quiet_service : SseService
quiet_service = record { emitters = []; next_connection = 3; sent = [] }

abbrev ann : Text
ann = codes "ann@example.com"

abbrev bob : Text
bob = codes "bob@example.com"

abbrev common : StockTick
common = record {
  ticker = codes "005930";
  price = some (codes "70000");
  volume = none;
  timestamp = 1767195065000;
  owner_email = none;
  change_amount = codes "0";
  change_rate = codes "0";
}

abbrev own : StockTick
own = record common { owner_email = some (codes "app-key") }

abbrev events : List Event
events =
    opened bob
    ∷ ticked [] common
    ∷ ticked ((codes "app-key", bob) ∷ (codes "app-key", ann) ∷ []) own
    ∷ ticked ((codes "app-key", bob) ∷ []) own
    ∷ ended bob
    ∷ alerted (codes "alert")
    ∷ []

-- what the events have for her
ann_test :
    all_payloads_for ann events
    ≡ stock_tick common ∷ stock_tick own ∷ anomaly_alert (codes "alert") ∷ []
unfolding get_users_by_app_key text_eq
ann_test = refl

abbrev ann_only : SseService
ann_only = record { emitters = (ann, 2) ∷ []; next_connection = 3; sent = [] }

received-run_example :
    received 2 (run works events ann_only).sent ≡ received 2 [] ++ all_payloads_for ann events
received-run_example =
    received-run works ann 2 (λ n. refl) (λ d n e. absurd (ground arith)) events ann_only
      ((λ e. absurd (ground arith)), (tt, (tt, (tt, ((λ e. absurd (ground arith)), (tt, tt))))))
      (record { held = inl (refl, tt); former = ground arith })

second_stream_silent_example :
    received 4
      (run works
        (opened ann ∷ opened ann ∷ ended ann ∷ alerted (codes "alert") ∷ [])
        quiet_service).sent
    ≡ received 4 (run works (opened ann ∷ opened ann ∷ []) quiet_service).sent
second_stream_silent_example =
    second_stream_silent works ann (alerted (codes "alert") ∷ []) quiet_service tt

-- the first connection is complete
abbrev first_throws : ℕ → ℕ → Sending
first_throws c n = if c == 1 then illegal_state else delivered

abbrev two_users : SseService
two_users = record { emitters = (bob, 1) ∷ (ann, 2) ∷ []; next_connection = 3; sent = [] }

alert_missed_example :
    received 2 (step first_throws (alerted (codes "alert")) two_users).sent ≡ received 2 []
alert_missed_example =
    alert_missed first_throws 2 [] ((ann, 2) ∷ []) bob 1 (codes "alert") two_users refl (λ n. refl)
      tt
