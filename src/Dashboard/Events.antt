-- ===== src/Dashboard/Events.antt =====
-- The dashboard under any order of live events, selections and unsubscriptions.
use stock_anomoly_detection.Prelude.{ℕ, zero, suc, List, [], ◌∷◌, Option, none, some}
use stock_anomoly_detection.Text.{Text}
use stock_anomoly_detection.Dashboard.{
  Stock, Dashboard, Tick, Alert, Signal, Answer, AlarmEntry, AiSignalEntry, to_alarm, to_signal,
  on_stock_tick, on_anomaly_alert, on_ai_signal, select_stock,
}
use stock_anomoly_detection.Dashboard.Search.{on_unsubscribed}

-- `selected n` is a click on the n-th stock of the list.
pub data Event (N : Type 0) : Type 0 where
  ticked : Tick N → Event N
  alerted : Alert N → Event N
  signalled : Signal N → Event N
  selected : ℕ → Event N
  unsubscribed : Text → Answer (Unit {0}) → Event N

abbrev pub get_elem? : {A : Type 0} → List A → ℕ → Option A
get_elem? [] n = none
get_elem? (x ∷ xs) zero = some x
get_elem? (x ∷ xs) (suc n) = get_elem? xs n

module _ {N : Type 0} (to_text : N → Text) where
  unfoldable pub click : Option Stock → Dashboard N → Dashboard N
  click none d = d
  click (some s) d = select_stock s d

  unfoldable pub step : Event N → Dashboard N → Dashboard N
  step (ticked tick) d = on_stock_tick to_text tick d
  step (alerted raw) d = on_anomaly_alert raw d
  step (signalled raw) d = on_ai_signal raw d
  step (selected n) d = click (get_elem? d.stocks n) d
  step (unsubscribed ticker answer) d = on_unsubscribed ticker answer d

  unfoldable pub run : List (Event N) → Dashboard N → Dashboard N
  run [] d = d
  run (e ∷ es) d = run es (step e d)

-- the entries of the events, the latest in front of `acc`
unfoldable pub alarms_of : {N : Type 0} → List (Event N) → List (AlarmEntry N) → List (AlarmEntry N)
alarms_of [] acc = acc
alarms_of (alerted raw ∷ es) acc = alarms_of es (to_alarm raw ∷ acc)
alarms_of (ticked tick ∷ es) acc = alarms_of es acc
alarms_of (signalled raw ∷ es) acc = alarms_of es acc
alarms_of (selected n ∷ es) acc = alarms_of es acc
alarms_of (unsubscribed ticker answer ∷ es) acc = alarms_of es acc

unfoldable pub signals_of :
    {N : Type 0} → List (Event N) → List (AiSignalEntry N) → List (AiSignalEntry N)
signals_of [] acc = acc
signals_of (signalled raw ∷ es) acc = signals_of es (to_signal raw ∷ acc)
signals_of (ticked tick ∷ es) acc = signals_of es acc
signals_of (alerted raw ∷ es) acc = signals_of es acc
signals_of (selected n ∷ es) acc = signals_of es acc
signals_of (unsubscribed ticker answer ∷ es) acc = signals_of es acc
