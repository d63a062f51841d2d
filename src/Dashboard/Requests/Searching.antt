-- ===== src/Dashboard/Requests/Searching.antt =====
-- The search box: which queries are asked, and what their answers show.
use stock_anomoly_detection.Prelude.{
  ℕ, zero, suc, ◌≤◌, ◌≡◌, refl, sym, ◌∙◌, ◌≢◌, Bool, true, false, List, [], ◌∷◌, ◌++◌, map, Option,
  none, some, length, ltb, if◌then◌else◌, All, All-append, arith, Bool-cases, inl, inr,
}
use stock_anomoly_detection.Text.{Text, codes, text_eq, text_eq_iff}
use stock_anomoly_detection.Dashboard.{Dashboard, Item, Stock, Answer, ok, listed, text_or}
use stock_anomoly_detection.Dashboard.Search.{
  on_subscriptions, search_stocks, on_found, type_text, focus, subscribe, on_subscribed,
  on_unsubscribed, shown_results,
}
use stock_anomoly_detection.Dashboard.Events.{get_elem?}
use stock_anomoly_detection.Dashboard.Requests.{
  Request, search, subscriptions, add, remove, LivePage, Event, typed, focused, timer_fired,
  subscribe_clicked, unsubscribe_clicked, answered, live, no_body, without, asked, rendered, fire,
  fetch_again, on_answer, answer_request, step, run,
}

-- a query is asked for a text of two characters or more
abbrev pub IsLong : Request → Type 0
IsLong (search query) = 2 ≤ length query
IsLong subscriptions = Unit
IsLong (add ticker) = Unit
IsLong (remove ticker) = Unit

abbrev pub Fresh : Option Text → Text → Type 0
Fresh none text = Unit
Fresh (some t) text = t ≡ text

-- The timer is for the text in the box, and no query on its way is too short.
pub record IsFresh {N : Type 0} (p : LivePage N) : Type 0 where
  pub timely : Fresh p.timer p.dashboard.new_ticker
  pub long : All IsLong p.pending

Fresh-timer :
    (b : Bool) (t : Option Text) (old new : Text)
    → (text_eq new old ≡ b)
    → Fresh t old
    → Fresh (if b then t else some new) new
Fresh-timer false t old new e h = refl
Fresh-timer true none old new e h = tt
Fresh-timer true (some t) old new e h = h ∙ sym ((text_eq_iff new old).0 e)

without-All : (n : ℕ) (l : List Request) → All IsLong l → All IsLong (without n l)
without-All n [] h = tt
without-All zero (x ∷ l) h = h.1
without-All (suc n) (x ∷ l) h = (h.0, without-All n l h.1)

added-IsLong : (o : Option Text) (l : List Request) → All IsLong l → All IsLong (asked add l o)
added-IsLong none l h = h
added-IsLong (some t) l h = All-append IsLong l (add t ∷ []) h (tt, tt)

last_pending : (l : List Request) (r : Request) → get_elem? (l ++ r ∷ []) (length l) ≡ some r
last_pending [] r = refl
last_pending (x ∷ l) r = last_pending l r

no_pending : (l : List Request) → get_elem? l (length l) ≡ none
no_pending [] = refl
no_pending (x ∷ l) = no_pending l

-- the stocks that the items of a search answer are shown as
abbrev pub found_stocks : List Item → List Stock
found_stocks items = map (λ (item : Item). listed item (text_or item.price (codes "0"))) items

module _ {N : Type 0} where
  rendered-IsFresh : (d : Dashboard N) (p : LivePage N) → IsFresh p → IsFresh (rendered d p)
  unfolding rendered
  rendered-IsFresh d p h = record {
    timely =
        Fresh-timer (text_eq d.new_ticker p.dashboard.new_ticker) p.timer p.dashboard.new_ticker
          d.new_ticker refl h.timely;
    long = h.long;
  }

  without-IsFresh :
      (n : ℕ) (p : LivePage N) → IsFresh p → IsFresh (record p { pending = without n p.pending })
  without-IsFresh n p h = record { timely = h.timely; long = without-All n p.pending h.long }

  fire-IsFresh : (t : Option Text) (p : LivePage N) → IsFresh p → IsFresh (fire t p)
  unfolding fire search_stocks
  fire-IsFresh none p h = h
  fire-IsFresh (some text) p h = elim (Bool-cases (ltb (length text) 2)) [
    | inl short ↦ rw short (record { timely = tt; long = h.long })
    | inr enough ↦ rw enough (record {
      timely = tt;
      long = All-append IsLong p.pending (search text ∷ []) h.long (ground arith, tt);
    })
  ]

  fetch_again-IsFresh :
      (r : Dashboard N × Bool) (p : LivePage N) → IsFresh p → IsFresh (fetch_again r p)
  fetch_again-IsFresh (d, false) p h = rendered-IsFresh d p h
  fetch_again-IsFresh (d, true) p h =
      let q = rendered-IsFresh d p h in
      record {
        timely = q.timely;
        long = All-append IsLong (rendered d p).pending (subscriptions ∷ []) q.long (tt, tt);
      }

  on_answer-IsFresh :
      (r : Request) (a : Answer (List Item)) (p : LivePage N)
      → IsFresh p
      → IsFresh (on_answer r a p)
  unfolding on_answer
  on_answer-IsFresh (search query) a p h = rendered-IsFresh (on_found a p.dashboard) p h
  on_answer-IsFresh subscriptions a p h = rendered-IsFresh (on_subscriptions a p.dashboard) p h
  on_answer-IsFresh (add ticker) a p h =
      fetch_again-IsFresh (on_subscribed (no_body a) p.dashboard) p h
  on_answer-IsFresh (remove ticker) a p h =
      rendered-IsFresh (on_unsubscribed ticker (no_body a) p.dashboard) p h

  answer-IsFresh :
      (r : Option Request) (n : ℕ) (a : Answer (List Item)) (p : LivePage N)
      → IsFresh p
      → IsFresh (answer_request r n a p)
  unfolding answer_request
  answer-IsFresh none n a p h = h
  answer-IsFresh (some r) n a p h =
      on_answer-IsFresh r a (record p { pending = without n p.pending }) (without-IsFresh n p h)

  module _ (to_text : N → Text) where
    step-IsFresh : (e : Event N) (p : LivePage N) → IsFresh p → IsFresh (step to_text e p)
    unfolding step
    step-IsFresh (typed text) p h = rendered-IsFresh (type_text text p.dashboard) p h
    step-IsFresh focused p h = rendered-IsFresh (focus p.dashboard) p h
    step-IsFresh timer_fired p h = fire-IsFresh p.timer p h
    step-IsFresh (subscribe_clicked ticker) p h = record {
      timely = h.timely;
      long = added-IsLong (subscribe (some ticker) p.dashboard) p.pending h.long;
    }
    step-IsFresh (unsubscribe_clicked ticker) p h = record {
      timely = h.timely;
      long = All-append IsLong p.pending (remove ticker ∷ []) h.long (tt, tt);
    }
    step-IsFresh (answered n a) p h = answer-IsFresh (get_elem? p.pending n) n a p h
    step-IsFresh (live e) p h = rendered-IsFresh _ p h

    -- In any order of events a running search timer is for the very text in the search box, also after
    -- a subscription has cleared it, and every search query on its way has two characters at least.
    pub run-IsFresh :
        (es : List (Event N)) (p : LivePage N) → IsFresh p → IsFresh (run to_text es p)
    unfolding run
    run-IsFresh [] p h = h
    run-IsFresh (e ∷ es) p h = run-IsFresh es (step to_text e p) (step-IsFresh e p h)

    -- A new text, left in the box until the timer fires: if it is shorter than two characters no results
    -- are shown, and else, once the answer to its query has arrived, the stocks of that answer.
    pub search_shows :
        (text : Text) (items : List Item) (p : LivePage N)
        → text ≢ p.dashboard.new_ticker
        → shown_results
            (run to_text
              (typed text ∷ timer_fired ∷ answered (length p.pending) (ok items) ∷ [])
              p).dashboard
          ≡ (if ltb (length text) 2 then [] else found_stocks items)
    unfolding run step rendered type_text fire search_stocks answer_request on_answer on_found
        shown_results
    search_shows text items p differs = elim (Bool-cases (text_eq text p.dashboard.new_ticker)) [
      | inl same ↦ absurd (differs ((text_eq_iff text p.dashboard.new_ticker).0 same))
      | inr other ↦ rw other (elim (Bool-cases (ltb (length text) 2)) [
        | inl short ↦ rw (short, no_pending p.pending, answer_request) refl
        | inr enough ↦ rw (enough, last_pending p.pending (search text), answer_request) refl
      ])
    ]
