-- ===== src/Dashboard/Logs.antt =====
-- The two logs of the dashboard hold the latest fifty entries.
use stock_anomoly_detection.Prelude.{
  ℕ, ◌≡◌, ◌≤◌, ap, ◌∙◌, List, [], ◌∷◌, Option, none, some, take, take-take, length, length-take-le,
}
use stock_anomoly_detection.Text.{Text}
use stock_anomoly_detection.Dashboard.{
  Stock, Dashboard, AlarmEntry, AiSignalEntry, to_alarm, to_signal, log_limit, on_stock_tick,
  on_anomaly_alert, on_ai_signal, select_stock, failed, not_ok, ok,
}
use stock_anomoly_detection.Dashboard.Search.{on_unsubscribed}
use stock_anomoly_detection.Dashboard.Events.{
  Event, ticked, alerted, signalled, selected, unsubscribed, get_elem?, click, step, run, alarms_of,
  signals_of,
}

-- the number of entries that a log holds at most
abbrev pub log_size : ℕ
log_size = 50

-- one more entry in front of the latest fifty
add :
    {A : Type 0} (a : A) (l : List A) → a ∷ take log_limit (take log_size l) ≡ take log_size (a ∷ l)
add a l = ap (◌∷◌ a) (take-take log_limit l)

module _ {N : Type 0} (to_text : N → Text) where
  -- the logs are the latest entries of the histories `alarms` and `signals`
  pub record Logs (alarms : List (AlarmEntry N)) (signals : List (AiSignalEntry N))
      (d : Dashboard N) : Type 0 where
    pub alarms_are : d.alarms ≡ take log_size alarms
    pub signals_are : d.ai_signals ≡ take log_size signals

  click-Logs :
      {as' : List (AlarmEntry N)} {ss : List (AiSignalEntry N)} (o : Option Stock) (d : Dashboard N)
      → Logs as' ss d
      → Logs as' ss (click to_text o d)
  unfolding click select_stock
  click-Logs none d h = h
  click-Logs (some s) d h = record { alarms_are = h.alarms_are; signals_are = h.signals_are }

  run-Logs :
      (es : List (Event N)) (as' : List (AlarmEntry N)) (ss : List (AiSignalEntry N))
      (d : Dashboard N)
      → Logs as' ss d
      → Logs (alarms_of es as') (signals_of es ss) (run to_text es d)
  unfolding run step alarms_of signals_of on_stock_tick on_anomaly_alert on_ai_signal
      on_unsubscribed
  run-Logs [] as' ss d h = h
  run-Logs (ticked tick ∷ es) as' ss d h =
      run-Logs es as' ss _ (record { alarms_are = h.alarms_are; signals_are = h.signals_are })
  run-Logs (alerted raw ∷ es) as' ss d h = run-Logs es (to_alarm raw ∷ as') ss _ (record {
    alarms_are = ap (λ l. to_alarm raw ∷ take log_limit l) h.alarms_are ∙ add (to_alarm raw) as';
    signals_are = h.signals_are;
  })
  run-Logs (signalled raw ∷ es) as' ss d h = run-Logs es as' (to_signal raw ∷ ss) _ (record {
    alarms_are = h.alarms_are;
    signals_are = ap (λ l. to_signal raw ∷ take log_limit l) h.signals_are ∙ add (to_signal raw) ss;
  })
  run-Logs (selected n ∷ es) as' ss d h =
      run-Logs es as' ss _ (click-Logs (get_elem? d.stocks n) d h)
  run-Logs (unsubscribed t failed ∷ es) as' ss d h = run-Logs es as' ss d h
  run-Logs (unsubscribed t not_ok ∷ es) as' ss d h = run-Logs es as' ss d h
  run-Logs (unsubscribed t (ok u) ∷ es) as' ss d h =
      run-Logs es as' ss _ (record { alarms_are = h.alarms_are; signals_are = h.signals_are })

  -- From empty logs, in any order of events, the alarm log and the signal log are the fifty latest
  -- alerts and signals received, the latest first, and hold fifty entries at most.
  pub run-logs :
      (es : List (Event N)) (d : Dashboard N)
      → d.alarms ≡ []
      → d.ai_signals ≡ []
      → ((run to_text es d).alarms ≡ take log_size (alarms_of es []))
        × ((run to_text es d).ai_signals ≡ take log_size (signals_of es []))
        × (length (run to_text es d).alarms ≤ log_size)
        × (length (run to_text es d).ai_signals ≤ log_size)
  run-logs es d e f =
      let h = run-Logs es [] [] d (record { alarms_are = e; signals_are = f }) in
      (
        h.alarms_are,
        h.signals_are,
        rw h.alarms_are (length-take-le log_size (alarms_of es [])),
        rw h.signals_are (length-take-le log_size (signals_of es [])),
      )
