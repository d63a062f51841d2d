-- ===== src/Dashboard/Requests.antt =====
-- The requests of web-app/app/page.tsx that are on their way, the search timer, and the answers in
-- any order. React runs an effect anew when its dependency has changed, after the old cleanup.
pub mod Searching
pub mod Late
use stock_anomoly_detection.Prelude.{
  ℕ, zero, suc, Bool, true, false, List, [], ◌∷◌, ◌++◌, Option, none, some, if◌then◌else◌,
}
use stock_anomoly_detection.Text.{Text, text_eq}
use stock_anomoly_detection.Dashboard.{Dashboard, Item, Answer, failed, not_ok, ok}
use stock_anomoly_detection.Dashboard.Search.{
  on_subscriptions, search_stocks, on_found, type_text, focus, subscribe, on_subscribed,
  on_unsubscribed,
}
use stock_anomoly_detection.Dashboard.Events as Events
use stock_anomoly_detection.Dashboard.Events.{get_elem?}

pub data Request : Type 0 where
  search : Text → Request
  subscriptions : Request
  add : Text → Request
  remove : Text → Request

-- The page with the text of the search timer's closure, if the timer runs, and the requests that
-- are not answered, the oldest first.
pub record LivePage (N : Type 0) : Type 0 where
  pub dashboard : Dashboard N
  pub timer : Option Text
  pub pending : List Request

-- Event `answered n` answers the n-th request that is on its way.
pub data Event (N : Type 0) : Type 0 where
  typed : Text → Event N
  focused : Event N
  timer_fired : Event N
  subscribe_clicked : Text → Event N
  unsubscribe_clicked : Text → Event N
  answered : ℕ → Answer (List Item) → Event N
  live : Events.Event N → Event N

-- an answer whose body is not read
abbrev pub no_body : {A : Type 0} → Answer A → Answer (Unit {0})
no_body failed = failed
no_body not_ok = not_ok
no_body (ok body) = ok tt

abbrev pub without : {A : Type 0} → ℕ → List A → List A
without n [] = []
without zero (x ∷ xs) = xs
without (suc n) (x ∷ xs) = x ∷ without n xs

abbrev pub asked : {A B : Type 0} → (B → A) → List A → Option B → List A
asked f xs none = xs
asked f xs (some x) = xs ++ f x ∷ []

module _ {N : Type 0} where
  -- the effect on `newTicker`: the timer starts anew when the text of the box has changed
  unfoldable pub rendered : Dashboard N → LivePage N → LivePage N
  rendered d p = record p {
    dashboard = d;
    timer = if text_eq d.new_ticker p.dashboard.new_ticker then p.timer else some d.new_ticker;
  }

  unfoldable pub fire : Option Text → LivePage N → LivePage N
  fire none p = p
  fire (some text) p =
      let found = search_stocks text p.dashboard in
      record p { dashboard = found.0; timer = none; pending = asked search p.pending found.1 }

  -- after a successful subscription `fetchSubscriptions` is called
  abbrev pub fetch_again : Dashboard N × Bool → LivePage N → LivePage N
  fetch_again (d, false) p = rendered d p
  fetch_again (d, true) p =
      let q = rendered d p in record q { pending = q.pending ++ subscriptions ∷ [] }

  unfoldable pub on_answer : Request → Answer (List Item) → LivePage N → LivePage N
  on_answer (search query) answer p = rendered (on_found answer p.dashboard) p
  on_answer subscriptions answer p = rendered (on_subscriptions answer p.dashboard) p
  on_answer (add ticker) answer p = fetch_again (on_subscribed (no_body answer) p.dashboard) p
  on_answer (remove ticker) answer p =
      rendered (on_unsubscribed ticker (no_body answer) p.dashboard) p

  unfoldable pub answer_request : Option Request → ℕ → Answer (List Item) → LivePage N → LivePage N
  answer_request none n answer p = p
  answer_request (some request) n answer p =
      on_answer request answer (record p { pending = without n p.pending })

  module _ (to_text : N → Text) where
    unfoldable pub step : Event N → LivePage N → LivePage N
    step (typed text) p = rendered (type_text text p.dashboard) p
    step focused p = rendered (focus p.dashboard) p
    step timer_fired p = fire p.timer p
    step (subscribe_clicked ticker) p = record p {
      pending = asked add p.pending (subscribe (some ticker) p.dashboard);
    }
    step (unsubscribe_clicked ticker) p = record p { pending = p.pending ++ remove ticker ∷ [] }
    step (answered n answer) p = answer_request (get_elem? p.pending n) n answer p
    step (live e) p = rendered (Events.step to_text e p.dashboard) p

    unfoldable pub run : List (Event N) → LivePage N → LivePage N
    run [] p = p
    run (e ∷ es) p = run es (step e p)
