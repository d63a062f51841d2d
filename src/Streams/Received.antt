-- ===== src/Streams/Received.antt =====
-- While SseService.java keeps a user's connection, it is sent everything that is meant for the user.
use mathlib.Core.Path.{subst}
use mathlib.Core.List.{append-nil}
use stock_anomoly_detection.Prelude.{
  Bool, true, false, ◌≢◌, ℕ, ◌+◌, ◌≡◌, ◌≢◌, refl, sym, ap, ◌∙◌, Bool, false, List, [], ◌∷◌, ◌++◌,
  map, Option, none, some, keep, length, All, Bool-cases, inl, inr, arith,
}
use stock_anomoly_detection.Text.{Text, text_eq, text_eq_iff}
use stock_anomoly_detection.Streams.{
  Sending, delivered, io_exception, illegal_state, attempt, and_then, welcome, Payload, SseService,
  remove_emitter, put_emitter, get_emitter, get_users_by_app_key, Event, opened, ended, ticked,
  alerted, signalled, send, send_all, broadcast, send_if, send_to_user, send_to_users, push_tick,
  greet, subscribe, step, run, received, tick_for, payloads_for, all_payloads_for, connected,
  stock_tick, anomaly_alert, ai_signal,
}
use stock_anomoly_detection.Streams.Wired.{
  IsOther, Holds, IsWired, IsQuiet, Holds-remove, Holds-append, received-other, received-own,
  got_own, got_other, Gains, Gains-nothing, Gains-both,
}

text_ne : (a b : Text) → text_eq a b ≡ false → a ≢ b
text_ne a b t e = let e' = (text_eq_iff a b).1 e in ground (arith, t, e')

module _ (ends : ℕ → ℕ → Sending) (email : Text) (c : ℕ) (sound : (n : ℕ) → ends c n ≡ delivered)
    (caught : (d n : ℕ) → ends d n ≢ illegal_state) where
  -- no exception is thrown, and the connection is sent some payloads more
  abbrev Goes : SseService → SseService × Bool → List Payload → Type 0
  Goes s r ps = Gains email c s r.0 ps × (r.1 ≡ true)

  Goes-then :
      (s : SseService) (r : SseService × Bool) (f : SseService → SseService × Bool)
      (ps qs : List Payload)
      → Goes s r ps
      → (IsWired email c r.0 → Goes r.0 (f r.0) qs)
      → Goes s (and_then r f) (ps ++ qs)
  Goes-then s (s', true) f ps qs g h =
      let rest = h g.0.0 in (Gains-both email c s s' (f s').0 ps qs g.0 rest.0, rest.1)
  Goes-then s (s', false) f ps qs g h = absurd (let e = g.1 in ground arith)

  send-own :
      (p : Payload) (s : SseService)
      → IsWired email c s
      → Goes s (send ends (email, c) p s) (p ∷ [])
  unfolding send
  send-own p s h =
      rw (sound (length s.sent))
        ((record { held = h.held; former = h.former }, received-own email c s.sent p), refl)

  attempt-other :
      (o : Sending) (e : Text) (d : ℕ) (p : Payload) (s : SseService)
      → o ≢ illegal_state
      → e ≢ email
      → d ≢ c
      → IsWired email c s
      → Goes s (attempt o (e, d) p s) []
  attempt-other delivered e d p s k n m h = (
    (
      record { held = h.held; former = h.former },
      received-other email c s.sent d p m ∙ sym (append-nil (received c s.sent)),
    ),
    refl,
  )
  attempt-other io_exception e d p s k n m h = (
    (
      record { held = Holds-remove email c e s.emitters n h.held; former = h.former },
      sym (append-nil (received c s.sent)),
    ),
    refl,
  )
  attempt-other illegal_state e d p s k n m h = absurd (k refl)

  send-other :
      (e : Text) (d : ℕ) (p : Payload) (s : SseService)
      → e ≢ email
      → d ≢ c
      → IsWired email c s
      → Goes s (send ends (e, d) p s) []
  unfolding send
  send-other e d p s n m h =
      attempt-other (ends d (length s.sent)) e d p s (caught d (length s.sent)) n m h

  send_all-others :
      (l : List (Text × ℕ)) (p : Payload) (s : SseService)
      → All (IsOther email c) l
      → IsWired email c s
      → Goes s (send_all ends l p s) []
  send_all-others [] p s o h = (Gains-nothing email c s h, refl)
  send_all-others (x ∷ l) p s o h =
      Goes-then s (send ends x p s) (send_all ends l p) [] [] (send-other x.0 x.1 p s o.0.0 o.0.1 h)
        (send_all-others l p (send ends x p s).0 o.1)

  send_all-own :
      (l : List (Text × ℕ)) (p : Payload) (s : SseService)
      → Holds email c l
      → IsWired email c s
      → Goes s (send_all ends l p s) (p ∷ [])
  send_all-own [] p s o h = absurd o
  send_all-own (x ∷ l) p s (inl (same, rest)) h = rw same (
      Goes-then s (send ends (email, c) p s) (send_all ends l p) (p ∷ []) [] (send-own p s h)
        (send_all-others l p (send ends (email, c) p s).0 rest))
  send_all-own (x ∷ l) p s (inr (other, rest)) h =
      Goes-then s (send ends x p s) (send_all ends l p) [] (p ∷ [])
        (send-other x.0 x.1 p s other.0 other.1 h) (send_all-own l p (send ends x p s).0 rest)

  send_if-other :
      (e : Text) (o : Option ℕ) (p : Payload) (s : SseService)
      → get_emitter e s.emitters ≡ o
      → e ≢ email
      → IsWired email c s
      → Goes s (send_if ends e o p s) []
  send_if-other e none p s g n h = (Gains-nothing email c s h, refl)
  send_if-other e (some d) p s g n h =
      send-other e d p s n (got_other email c e s.emitters d n h.held g) h

  send_to_user-own :
      (p : Payload) (s : SseService)
      → IsWired email c s
      → Goes s (send_to_user ends email p s) (p ∷ [])
  unfolding send_to_user
  send_to_user-own p s h = rw (got_own email c s.emitters h.held) (send-own p s h)

  send_to_user-other :
      (e : Text) (p : Payload) (s : SseService)
      → e ≢ email
      → IsWired email c s
      → Goes s (send_to_user ends e p s) []
  unfolding send_to_user
  send_to_user-other e p s n h = send_if-other e (get_emitter e s.emitters) p s refl n h

  abbrev copies : List Text → Payload → List Payload
  copies users p = map (λ _. p) (keep (λ u. text_eq u email) users)

  send_to_users-copies :
      (users : List Text) (p : Payload) (s : SseService)
      → IsWired email c s
      → Goes s (send_to_users ends users p s) (copies users p)
  send_to_users-copies [] p s h = (Gains-nothing email c s h, refl)
  send_to_users-copies (u ∷ us) p s h =
      let next = send_to_user ends u p s in
      elim (Bool-cases (text_eq u email)) [
        | inl t ↦
            let first =
              subst (λ v. Goes s (send_to_user ends v p s) (p ∷ []))
                (sym ((text_eq_iff u email).0 t)) (send_to_user-own p s h) in
            rw t (
              Goes-then s next (send_to_users ends us p) (p ∷ []) (copies us p) first
                (send_to_users-copies us p next.0))
        | inr t ↦ rw t (
            Goes-then s next (send_to_users ends us p) [] (copies us p)
              (send_to_user-other u p s (text_ne u email t) h) (send_to_users-copies us p next.0))
      ]

  copies_registered :
      (key : Text) (pairs : List (Text × Text)) (p : Payload)
      → copies (get_users_by_app_key key pairs) p ≡ tick_for email (some key) pairs p
  unfolding get_users_by_app_key
  copies_registered key [] p = refl
  copies_registered key (x ∷ pairs) p = elim (Bool-cases (text_eq x.0 key)) [
    | inl t ↦ elim (Bool-cases (text_eq x.1 email)) [
      | inl t' ↦ rw (t, t') (ap (◌∷◌ p) (copies_registered key pairs p))
      | inr t' ↦ rw (t, t') (copies_registered key pairs p)
    ]
    | inr t ↦ rw t (copies_registered key pairs p)
  ]

  push_tick-Gains :
      (o : Option Text) (pairs : List (Text × Text)) (p : Payload) (s : SseService)
      → IsWired email c s
      → Goes s (push_tick ends o pairs p s) (tick_for email o pairs p)
  unfolding broadcast
  push_tick-Gains none pairs p s h = send_all-own s.emitters p s h.held h
  push_tick-Gains (some key) pairs p s h =
      subst (Goes s (push_tick ends (some key) pairs p s)) (copies_registered key pairs p)
        (send_to_users-copies (get_users_by_app_key key pairs) p s h)

  welcome-Gains :
      (o : Sending) (d : ℕ) (s : SseService)
      → d ≢ c
      → IsWired email c s
      → Gains email c s (welcome o d s) []
  welcome-Gains delivered d s n h = (
    record { held = h.held; former = h.former },
    received-other email c s.sent d connected n ∙ sym (append-nil (received c s.sent)),
  )
  welcome-Gains io_exception d s n h = Gains-nothing email c s h
  welcome-Gains illegal_state d s n h = Gains-nothing email c s h

  greet-Gains :
      (d : ℕ) (s : SseService) → d ≢ c → IsWired email c s → Gains email c s (greet ends d s) []
  greet-Gains d s n h = welcome-Gains (ends d (length s.sent)) d s n h

  -- the state in which another user's connection has been put
  joined-IsWired :
      (e : Text) (s : SseService)
      → e ≢ email
      → IsWired email c s
      → IsWired email c (record s {
        emitters = put_emitter e s.next_connection s.emitters;
        next_connection = s.next_connection + 1;
      })
  unfolding put_emitter
  joined-IsWired e s n h =
      let former = h.former in
      record {
        held =
            Holds-append email c (remove_emitter e s.emitters) (e, s.next_connection)
              (n, λ same. absurd (omega arith)) (Holds-remove email c e s.emitters n h.held);
        former = omega arith;
      }

  step-Gains :
      (e : Event) (s : SseService)
      → IsQuiet email c e
      → IsWired email c s
      → Gains email c s (step ends e s) (payloads_for email e)
  unfolding step subscribe broadcast
  step-Gains (opened e) s q h =
      let former = h.former in
      let joined = record s {
        emitters = put_emitter e s.next_connection s.emitters;
        next_connection = s.next_connection + 1;
      } in
      greet-Gains s.next_connection joined (λ same. absurd (omega arith)) (joined-IsWired e s q h)
  step-Gains (ended e) s q h = (
    record { held = Holds-remove email c e s.emitters q h.held; former = h.former },
    sym (append-nil (received c s.sent)),
  )
  step-Gains (ticked pairs tick) s q h =
      (push_tick-Gains tick.owner_email pairs (stock_tick tick) s h).0
  step-Gains (alerted alert) s q h = (send_all-own s.emitters (anomaly_alert alert) s h.held h).0
  step-Gains (signalled signal) s q h = (send_all-own s.emitters (ai_signal signal) s h.held h).0

  run-both :
      (es : List Event) (s : SseService)
      → All (IsQuiet email c) es
      → IsWired email c s
      → Gains email c s (run ends es s) (all_payloads_for email es)
  unfolding run
  run-both [] s q h = Gains-nothing email c s h
  run-both (e ∷ es) s q h =
      let first = step-Gains e s q.0 h in
      Gains-both email c s (step ends e s) (run ends es (step ends e s)) (payloads_for email e)
        (all_payloads_for email es) first (run-both es (step ends e s) q.1 first.0)

  -- While a user's connection is the one that is kept for the user, sends on it are delivered, those on
  -- other connections may fail with an IOException but no other, and the user neither connects again nor
  -- ends a stream, whatever others do: the connection is sent every alert and
  -- signal, every common tick, and the ticks of a key once for each registration of the user under it,
  -- in their order, and nothing else.
  pub received-run :
      (es : List Event) (s : SseService)
      → All (IsQuiet email c) es
      → IsWired email c s
      → received c (run ends es s).sent ≡ received c s.sent ++ all_payloads_for email es
  received-run es s q h = (run-both es s q h).1
