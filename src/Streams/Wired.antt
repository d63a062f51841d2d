-- ===== src/Streams/Wired.antt =====
-- What a user's connection is sent, while SseService.java keeps it.
use mathlib.Core.List.{append_assoc, append-nil}
use stock_anomoly_detection.Prelude.{
  ℕ, ◌<◌, ◌≡◌, ◌≢◌, refl, sym, ap, ◌∙◌, Bool, not, List, [], ◌∷◌, ◌++◌, some, keep, All, ◌==◌,
  if_cases, Bool-cases, ◌⊎◌, inl, inr, arith,
}
use stock_anomoly_detection.Text.{Text, text_eq, text_eq_iff, text_eq_refl}
use stock_anomoly_detection.Streams.{
  Payload, SseService, remove_emitter, get_emitter, Event, opened, ended, ticked, alerted,
  signalled, received,
}

module _ (email : Text) (c : ℕ) where
  abbrev pub IsOther : Text × ℕ → Type 0
  IsOther x = (x.0 ≢ email) × (x.1 ≢ c)

  -- The user's one entry is the connection, and it is no one else's.
  abbrev pub Holds : List (Text × ℕ) → Type 0
  Holds [] = ⊥
  Holds (x ∷ l) = ((x ≡ (email, c)) × All IsOther l) ⊎ (IsOther x × Holds l)

  pub record IsWired (s : SseService) : Type 0 where
    pub held : Holds s.emitters
    pub former : c < s.next_connection

  -- no event of the user's own
  abbrev pub IsQuiet : Event → Type 0
  IsQuiet (opened e) = e ≢ email
  IsQuiet (ended e) = e ≢ email
  IsQuiet (ticked pairs tick) = Unit
  IsQuiet (alerted alert) = Unit
  IsQuiet (signalled signal) = Unit

  pub received-other :
      (l : List (ℕ × Payload)) (d : ℕ) (p : Payload)
      → d ≢ c
      → received c (l ++ (d, p) ∷ []) ≡ received c l
  received-other [] d p n = ground arith
  received-other ((d', q) ∷ l) d p n = rw (received-other l d p n) refl

  pub received-own :
      (l : List (ℕ × Payload)) (p : Payload)
      → received c (l ++ (c, p) ∷ []) ≡ received c l ++ p ∷ []
  received-own [] p = ground arith
  received-own ((d', q) ∷ l) p = elim (Bool-cases (d' == c)) [
    | inl e ↦ rw e (ap (◌∷◌ q) (received-own l p))
    | inr e ↦ rw e (received-own l p)
  ]

  others_kept : (f : Text × ℕ → Bool) (l : List (Text × ℕ)) → All IsOther l → All IsOther (keep f l)
  others_kept f [] h = tt
  others_kept f (x ∷ l) h =
      if_cases (All IsOther) (f x) (λ _. (h.0, others_kept f l h.1)) (λ _. others_kept f l h.1)

  pub Holds-remove :
      (e : Text) (l : List (Text × ℕ)) → e ≢ email → Holds l → Holds (remove_emitter e l)
  unfolding remove_emitter
  Holds-remove e [] n h = absurd h
  Holds-remove e (x ∷ l) n (inl (same, rest)) = elim (Bool-cases (text_eq x.0 e)) [
    | inl t ↦ absurd (n (sym ((text_eq_iff x.0 e).0 t) ∙ ap (λ y. y.0) same))
    | inr t ↦ rw t (inl (same, others_kept (λ (x : Text × ℕ). not (text_eq x.0 e)) l rest))
  ]
  Holds-remove e (x ∷ l) n (inr (other, rest)) =
      if_cases Holds (not (text_eq x.0 e)) (λ _. inr (other, Holds-remove e l n rest))
        (λ _. Holds-remove e l n rest)

  others_more :
      (l : List (Text × ℕ)) (x : Text × ℕ) → All IsOther l → IsOther x → All IsOther (l ++ x ∷ [])
  others_more [] x h o = (o, tt)
  others_more (y ∷ l) x h o = (h.0, others_more l x h.1 o)

  pub Holds-append :
      (l : List (Text × ℕ)) (x : Text × ℕ) → IsOther x → Holds l → Holds (l ++ x ∷ [])
  Holds-append [] x o h = absurd h
  Holds-append (y ∷ l) x o (inl (same, rest)) = inl (same, others_more l x rest o)
  Holds-append (y ∷ l) x o (inr (other, rest)) = inr (other, Holds-append l x o rest)

  absent :
      (e : Text) (l : List (Text × ℕ)) (d : ℕ) → All IsOther l → get_emitter e l ≡ some d → d ≢ c
  absent e [] d h g = absurd (ground arith)
  absent e ((e', d') ∷ l) d h g = elim (Bool-cases (text_eq e' e)) [
    | inl t ↦ let same : d' ≡ d = ground (arith, t, g) in rw (← same) h.0.1
    | inr t ↦ absent e l d h.1 (ground (arith, t, g))
  ]

  pub got_own : (l : List (Text × ℕ)) → Holds l → get_emitter email l ≡ some c
  got_own [] h = absurd h
  got_own (x ∷ l) (inl (same, rest)) =
      rw (ap (λ y. y.0) same, text_eq_refl email) (ap (λ y. some y.1) same)
  got_own (x ∷ l) (inr (other, rest)) = elim (Bool-cases (text_eq x.0 email)) [
    | inl t ↦ absurd (other.0 ((text_eq_iff x.0 email).0 t))
    | inr t ↦ rw t (got_own l rest)
  ]

  pub got_other :
      (e : Text) (l : List (Text × ℕ)) (d : ℕ)
      → e ≢ email
      → Holds l
      → get_emitter e l ≡ some d
      → d ≢ c
  got_other e [] d n h g = absurd h
  got_other e (x ∷ l) d n (inl (same, rest)) g = elim (Bool-cases (text_eq x.0 e)) [
    | inl t ↦ absurd (n (sym ((text_eq_iff x.0 e).0 t) ∙ ap (λ y. y.0) same))
    | inr t ↦ absent e l d rest (ground (arith, t, g))
  ]
  got_other e (x ∷ l) d n (inr (other, rest)) g = elim (Bool-cases (text_eq x.0 e)) [
    | inl t ↦ let same : x.1 ≡ d = ground (arith, t, g) in rw (← same) other.1
    | inr t ↦ got_other e l d n rest (ground (arith, t, g))
  ]

  -- the state stays wired, and the connection is sent some payloads more
  abbrev pub Gains : SseService → SseService → List Payload → Type 0
  Gains s s' ps = IsWired s' × (received c s'.sent ≡ received c s.sent ++ ps)

  pub Gains-nothing : (s : SseService) → IsWired s → Gains s s []
  Gains-nothing s h = (h, sym (append-nil (received c s.sent)))

  pub Gains-both :
      (s s' s'' : SseService) (ps qs : List Payload)
      → Gains s s' ps
      → Gains s' s'' qs
      → Gains s s'' (ps ++ qs)
  Gains-both s s' s'' ps qs g g' =
      (g'.0, g'.1 ∙ (ap (λ l. l ++ qs) g.1 ∙ append_assoc (received c s.sent) ps qs))
