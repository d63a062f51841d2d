-- ===== src/Streams/Aborted.antt =====
-- SseService.java catches the IOException of a send, and no other.
use stock_anomoly_detection.Prelude.{
  ℕ, ◌≡◌, ◌≢◌, refl, ap, ◌∙◌, Bool, true, false, List, [], ◌∷◌, ◌++◌, length, All,
}
use stock_anomoly_detection.Text.{Text}
use stock_anomoly_detection.Streams.{
  Sending, delivered, io_exception, illegal_state, attempt, and_then, Payload, SseService, alerted,
  anomaly_alert, send, send_all, broadcast, step, received,
}
use stock_anomoly_detection.Streams.Wired.{received-other}

module _ (ends : ℕ → ℕ → Sending) (c : ℕ) where
  abbrev Same : SseService → SseService → Type 0
  Same s s' = received c s'.sent ≡ received c s.sent

  attempt-received :
      (o : Sending) (x : Text × ℕ) (p : Payload) (s : SseService)
      → x.1 ≢ c
      → Same s (attempt o x p s).0
  attempt-received delivered x p s n = received-other [] c s.sent x.1 p n
  attempt-received io_exception x p s n = refl
  attempt-received illegal_state x p s n = refl

  then-received :
      (s : SseService) (r : SseService × Bool) (f : SseService → SseService × Bool)
      → Same s r.0
      → Same r.0 (f r.0).0
      → Same s (and_then r f).0
  then-received s (s', true) f g h = h ∙ g
  then-received s (s', false) f g h = g

  -- whatever comes behind a send that throws is left out
  thrown-received :
      (l l' : List (Text × ℕ)) (e : Text) (d : ℕ) (p : Payload) (s : SseService)
      → ((n : ℕ) → ends d n ≡ illegal_state)
      → All (λ (x : Text × ℕ). x.1 ≢ c) l
      → Same s (send_all ends (l ++ (e, d) ∷ l') p s).0
  unfolding send
  thrown-received [] l' e d p s throws h = rw (throws (length s.sent)) refl
  thrown-received (x ∷ l) l' e d p s throws h =
      then-received s (send ends x p s) (send_all ends (l ++ (e, d) ∷ l') p)
        (attempt-received (ends x.1 (length s.sent)) x p s h.0)
        (thrown-received l l' e d p (send ends x p s).0 throws h.1)

  -- Where the sends on one connection end with an exception that is no IOException, an alert is not sent
  -- on any other connection that stands behind it in the map, although nothing is wrong with that one.
  pub alert_missed :
      (l l' : List (Text × ℕ)) (e : Text) (d : ℕ) (alert : Text) (s : SseService)
      → s.emitters ≡ l ++ (e, d) ∷ l'
      → ((n : ℕ) → ends d n ≡ illegal_state)
      → All (λ (x : Text × ℕ). x.1 ≢ c) l
      → received c (step ends (alerted alert) s).sent ≡ received c s.sent
  unfolding step broadcast
  alert_missed l l' e d alert s there throws h =
      ap (λ k. received c (send_all ends k (anomaly_alert alert) s).0.sent) there
      ∙ thrown-received l l' e d (anomaly_alert alert) s throws h
