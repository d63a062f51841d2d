-- ===== src/Streams/Deaf.antt =====
-- In SseService.java the end of a stream removes whatever stream its user has.
use mathlib.Core.Path.{subst}
use stock_anomoly_detection.Prelude.{
  Bool, true, false, ℕ, ◌+◌, ◌<◌, ◌≡◌, ◌≢◌, refl, ◌∙◌, Bool, not, List, [], ◌∷◌, ◌++◌, Option, none,
  some, keep, length, All, All-append, if_cases, Bool-cases, inl, inr, arith,
}
use stock_anomoly_detection.Text.{Text, text_eq, text_eq_refl}
use stock_anomoly_detection.Streams.{
  Sending, delivered, io_exception, illegal_state, attempt, and_then, welcome, Payload, SseService,
  remove_emitter, put_emitter, get_emitter, get_users_by_app_key, Event, opened, ended, ticked,
  alerted, signalled, send, send_all, broadcast, send_if, send_to_user, send_to_users, push_tick,
  greet, subscribe, step, run, received, connected, stock_tick, anomaly_alert, ai_signal,
}
use stock_anomoly_detection.Streams.Wired.{received-other}

module _ (ends : ℕ → ℕ → Sending) (c : ℕ) where
  abbrev pub IsElse : Text × ℕ → Type 0
  IsElse x = x.1 ≢ c

  -- The connection is an old one and no user's.
  pub record IsLost (s : SseService) : Type 0 where
    pub lost : All IsElse s.emitters
    pub former : c < s.next_connection

  -- the connection stays lost and is sent nothing
  abbrev pub Silent : SseService → SseService → Type 0
  Silent s s' = IsLost s' × (received c s'.sent ≡ received c s.sent)

  IsElse-kept : (f : Text × ℕ → Bool) (l : List (Text × ℕ)) → All IsElse l → All IsElse (keep f l)
  IsElse-kept f [] h = tt
  IsElse-kept f (x ∷ l) h =
      if_cases (All IsElse) (f x) (λ _. (h.0, IsElse-kept f l h.1)) (λ _. IsElse-kept f l h.1)

  IsElse-removed : (e : Text) (l : List (Text × ℕ)) → All IsElse l → All IsElse (remove_emitter e l)
  unfolding remove_emitter
  IsElse-removed e l h = IsElse-kept (λ (x : Text × ℕ). not (text_eq x.0 e)) l h

  got_else :
      (e : Text) (l : List (Text × ℕ)) (d : ℕ) → All IsElse l → get_emitter e l ≡ some d → d ≢ c
  got_else e [] d h g = absurd (ground arith)
  got_else e (x ∷ l) d h g = elim (Bool-cases (text_eq x.0 e)) [
    | inl t ↦ let same : x.1 ≡ d = ground (arith, t, g) in rw (← same) h.0
    | inr t ↦ got_else e l d h.1 (ground (arith, t, g))
  ]

  attempt-Silent :
      (o : Sending) (x : Text × ℕ) (p : Payload) (s : SseService)
      → x.1 ≢ c
      → IsLost s
      → Silent s (attempt o x p s).0
  attempt-Silent delivered x p s n h =
      (record { lost = h.lost; former = h.former }, received-other [] c s.sent x.1 p n)
  attempt-Silent io_exception x p s n h =
      (record { lost = IsElse-removed x.0 s.emitters h.lost; former = h.former }, refl)
  attempt-Silent illegal_state x p s n h = (h, refl)

  send-Silent :
      (x : Text × ℕ) (p : Payload) (s : SseService)
      → x.1 ≢ c
      → IsLost s
      → Silent s (send ends x p s).0
  unfolding send
  send-Silent x p s n h = attempt-Silent (ends x.1 (length s.sent)) x p s n h

  then-Silent :
      (s : SseService) (r : SseService × Bool) (f : SseService → SseService × Bool)
      → Silent s r.0
      → (IsLost r.0 → Silent r.0 (f r.0).0)
      → Silent s (and_then r f).0
  then-Silent s (s', true) f g h = let rest = h g.0 in (rest.0, rest.1 ∙ g.1)
  then-Silent s (s', false) f g h = g

  send_all-Silent :
      (l : List (Text × ℕ)) (p : Payload) (s : SseService)
      → All IsElse l
      → IsLost s
      → Silent s (send_all ends l p s).0
  send_all-Silent [] p s o h = (h, refl)
  send_all-Silent (x ∷ l) p s o h =
      then-Silent s (send ends x p s) (send_all ends l p) (send-Silent x p s o.0 h)
        (send_all-Silent l p (send ends x p s).0 o.1)

  send_if-Silent :
      (e : Text) (o : Option ℕ) (p : Payload) (s : SseService)
      → get_emitter e s.emitters ≡ o
      → IsLost s
      → Silent s (send_if ends e o p s).0
  send_if-Silent e none p s g h = (h, refl)
  send_if-Silent e (some d) p s g h = send-Silent (e, d) p s (got_else e s.emitters d h.lost g) h

  send_to_users-Silent :
      (users : List Text) (p : Payload) (s : SseService)
      → IsLost s
      → Silent s (send_to_users ends users p s).0
  unfolding send_to_user
  send_to_users-Silent [] p s h = (h, refl)
  send_to_users-Silent (u ∷ us) p s h =
      then-Silent s (send_to_user ends u p s) (send_to_users ends us p)
        (send_if-Silent u (get_emitter u s.emitters) p s refl h)
        (send_to_users-Silent us p (send_to_user ends u p s).0)

  push_tick-Silent :
      (o : Option Text) (pairs : List (Text × Text)) (p : Payload) (s : SseService)
      → IsLost s
      → Silent s (push_tick ends o pairs p s).0
  unfolding broadcast
  push_tick-Silent none pairs p s h = send_all-Silent s.emitters p s h.lost h
  push_tick-Silent (some key) pairs p s h =
      send_to_users-Silent (get_users_by_app_key key pairs) p s h

  welcome-Silent :
      (o : Sending) (d : ℕ) (s : SseService) → d ≢ c → IsLost s → Silent s (welcome o d s)
  welcome-Silent delivered d s n h =
      (record { lost = h.lost; former = h.former }, received-other [] c s.sent d connected n)
  welcome-Silent io_exception d s n h = (h, refl)
  welcome-Silent illegal_state d s n h = (h, refl)

  greet-Silent : (d : ℕ) (s : SseService) → d ≢ c → IsLost s → Silent s (greet ends d s)
  greet-Silent d s n h = welcome-Silent (ends d (length s.sent)) d s n h

  step-Silent : (e : Event) (s : SseService) → IsLost s → Silent s (step ends e s)
  unfolding step subscribe broadcast put_emitter
  step-Silent (opened e) s h =
      let former = h.former in
      let n : s.next_connection ≢ c = λ same. absurd (omega arith) in
      greet-Silent s.next_connection
        (record s {
          emitters = put_emitter e s.next_connection s.emitters;
          next_connection = s.next_connection + 1;
        })
        n
        (record {
          lost =
              All-append IsElse (remove_emitter e s.emitters) ((e, s.next_connection) ∷ [])
                (IsElse-removed e s.emitters h.lost) (n, tt);
          former = omega arith;
        })
  step-Silent (ended e) s h =
      (record { lost = IsElse-removed e s.emitters h.lost; former = h.former }, refl)
  step-Silent (ticked pairs tick) s h =
      push_tick-Silent tick.owner_email pairs (stock_tick tick) s h
  step-Silent (alerted alert) s h = send_all-Silent s.emitters (anomaly_alert alert) s h.lost h
  step-Silent (signalled signal) s h = send_all-Silent s.emitters (ai_signal signal) s h.lost h

  pub run-Silent : (es : List Event) (s : SseService) → IsLost s → Silent s (run ends es s)
  unfolding run
  run-Silent [] s h = (h, refl)
  run-Silent (e ∷ es) s h =
      let first = step-Silent e s h in
      let rest = run-Silent es (step ends e s) first.0 in (rest.0, rest.1 ∙ first.1)

-- the numbers of the connections are used up
abbrev pub Below : ℕ → List (Text × ℕ) → Type 0
Below n l = All (λ (x : Text × ℕ). x.1 < n) l

Below-removed :
    (n : ℕ) (e : Text) (l : List (Text × ℕ)) → Below n l → Below (n + 1) (remove_emitter e l)
unfolding remove_emitter
Below-removed n e [] h = tt
Below-removed n e (x ∷ l) h =
    let h0 = h.0 in
    if_cases (Below (n + 1)) (not (text_eq x.0 e)) (λ _. (omega arith, Below-removed n e l h.1))
      (λ _. Below-removed n e l h.1)

Below-put : (n : ℕ) (e : Text) (l : List (Text × ℕ)) → Below n l → Below (n + 1) (put_emitter e n l)
unfolding put_emitter
Below-put n e l h =
    All-append (λ (x : Text × ℕ). x.1 < n + 1) (remove_emitter e l) ((e, n) ∷ [])
      (Below-removed n e l h) (omega arith, tt)

removed_last :
    (c : ℕ) (e : Text) (l : List (Text × ℕ))
    → Below c l
    → All (λ (x : Text × ℕ). x.1 ≢ c) (remove_emitter e (remove_emitter e l ++ (e, c) ∷ []))
unfolding remove_emitter
removed_last c e [] h = rw (text_eq_refl e) tt
removed_last c e (x ∷ l) h =
    let h0 = h.0 in
    elim (Bool-cases (text_eq x.0 e)) [
      | inl t ↦ rw t (removed_last c e l h.1)
      | inr t ↦ rw t (rw t (λ same. absurd (omega arith), removed_last c e l h.1))
    ]

module _ (ends : ℕ → ℕ → Sending) where
  welcome-same :
      (o : Sending) (d : ℕ) (s : SseService)
      → ((welcome o d s).emitters ≡ s.emitters)
        × ((welcome o d s).next_connection ≡ s.next_connection)
  welcome-same delivered d s = (refl, refl)
  welcome-same io_exception d s = (refl, refl)
  welcome-same illegal_state d s = (refl, refl)

  opened-same :
      (e : Text) (s : SseService)
      → ((step ends (opened e) s).emitters ≡ put_emitter e s.next_connection s.emitters)
        × ((step ends (opened e) s).next_connection ≡ s.next_connection + 1)
  unfolding step subscribe
  opened-same e s =
      welcome-same (ends s.next_connection (length s.sent)) s.next_connection (record s {
        emitters = put_emitter e s.next_connection s.emitters;
        next_connection = s.next_connection + 1;
      })

  ended-IsLost :
      (e : Text) (s : SseService)
      → Below s.next_connection s.emitters
      → IsLost ends s.next_connection (step ends (ended e) (step ends (opened e) s))
  unfolding step put_emitter
  ended-IsLost e s h =
      let same = opened-same e s in
      record {
        lost = rw same.0 (removed_last s.next_connection e s.emitters h);
        former = rw same.1 (omega arith);
      }

  -- A user connects twice, and the former of the two streams ends: whatever happens afterwards, nothing
  -- more is sent on the latter stream, although it has not ended.
  pub second_stream_silent :
      (e : Text) (es : List Event) (s : SseService)
      → Below s.next_connection s.emitters
      → (let c = s.next_connection + 1 in
          received c (run ends (opened e ∷ opened e ∷ ended e ∷ es) s).sent
          ≡ received c (run ends (opened e ∷ opened e ∷ []) s).sent)
  unfolding run step
  second_stream_silent e es s h =
      let first = step ends (opened e) s in
      let same = opened-same e s in
      let below : Below first.next_connection first.emitters =
        rw (same.0, same.1) (Below-put s.next_connection e s.emitters h) in
      let last = step ends (ended e) (step ends (opened e) first) in
      subst (λ c. received c (run ends es last).sent ≡ received c last.sent) same.1
        (run-Silent ends first.next_connection es last (ended-IsLost e first below)).1
