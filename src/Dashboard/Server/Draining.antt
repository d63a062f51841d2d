-- ===== src/Dashboard/Server/Draining.antt =====
-- All answers arrive at last, and web-app/app/page.tsx then shows what the server has.
use stock_anomoly_detection.Prelude.{
  ℕ, zero, suc, ◌+◌, ◌≤◌, ◌≡◌, refl, List, [], ◌∷◌, ◌++◌, Option, none, some, inl, inr, arith,
}
use stock_anomoly_detection.Text.{Text}
use stock_anomoly_detection.Dashboard.{Item, Answer}
use stock_anomoly_detection.Dashboard.Events.{get_elem?}
use stock_anomoly_detection.Dashboard.Requests.{
  Request, search, subscriptions, add, remove, LivePage, without, on_answer,
}
use stock_anomoly_detection.Dashboard.Server.{
  Server, World, Action, arrives, AreOrdered, shown, hear, go, go_all, drained, open_page,
}
use stock_anomoly_detection.Dashboard.Server.Leads.{Leads, request_of}
use stock_anomoly_detection.Dashboard.Server.Acts.{IsAdd, on_answer_cases}
use stock_anomoly_detection.Dashboard.Server.Watching.{
  InStep, left, step-answered, step-InStep, go_all-InStep, open_page-InStep, shown-tickers,
}

-- the answers to a request, with that to the list that follows an addition
abbrev pub cost : Request → ℕ
cost (search query) = 1
cost subscriptions = 1
cost (add ticker) = 2
cost (remove ticker) = 1

abbrev pub answers_due : List Request → ℕ
answers_due [] = 0
answers_due (r ∷ rs) = cost r + answers_due rs

cost_pos : (r : Request) → 1 ≤ cost r
cost_pos (search query) = omega arith
cost_pos subscriptions = omega arith
cost_pos (add ticker) = omega arith
cost_pos (remove ticker) = omega arith

cost-add : (r : Request) → IsAdd r → cost r ≡ 2
cost-add (search query) h = absurd h
cost-add subscriptions h = absurd h
cost-add (add ticker) h = refl
cost-add (remove ticker) h = absurd h

due-append : (rs : List Request) → answers_due (rs ++ subscriptions ∷ []) ≡ 1 + answers_due rs
due-append [] = refl
due-append (r ∷ rs) = omega (arith, due-append rs)

due-without :
    (rs : List Request) (r : Request)
    → get_elem? rs 0 ≡ some r
    → answers_due rs ≡ cost r + answers_due (without 0 rs)
due-without [] r e = absurd (ground arith)
due-without (q ∷ rs) r e = let same : q ≡ r = ground arith in rw same refl

none_due :
    (rs : List Request) (bs : List (Answer (List Item))) (o : Option (List Text)) (s : List Text)
    → Leads rs bs o s
    → get_elem? bs 0 ≡ none
    → rs ≡ []
none_due [] bs o s h e = refl
none_due (r ∷ rs) [] o s h e = absurd h
none_due (r ∷ rs) (b ∷ bs) o s h e = absurd (ground arith)

nothing_due : (rs : List Request) → answers_due rs ≤ 0 → rs ≡ []
nothing_due [] h = refl
nothing_due (r ∷ rs) h = let c = cost_pos r in absurd (omega arith)

on_answer-due :
    {N : Type 0} (r : Request) (a : Answer (List Item)) (p : LivePage N)
    → answers_due (on_answer r a p).pending + 1 ≤ cost r + answers_due p.pending
on_answer-due r a p = elim (on_answer_cases r a p) [
  | inl (e, l) ↦ let c = cost_pos r in rw e (omega arith)
  | inr (e, l, is_add) ↦
      let c = cost-add r is_add in let d = due-append p.pending in rw e (omega arith)
]

module _ {N S : Type 0} (to_text : N → Text) (server : Server S) where
  module _ (w : World N S) (h : InStep to_text server w) (n : ℕ) where
    hear-due :
        (o : Option (Answer (List Item)))
        → get_elem? w.replies 0 ≡ o
        → answers_due w.page.pending ≤ suc n
        → answers_due (hear to_text server o 0 w).page.pending ≤ n
    hear-due none e due =
        let nil =
          none_due w.page.pending w.replies (some (shown w.page)) (server.tickers w.server) h.0 e in
        rw nil (omega arith)
    hear-due (some a) e due =
        let (r, e') =
          request_of w.page.pending w.replies 0 a (some (shown w.page)) (server.tickers w.server)
            h.0 e in
        let first = due-without w.page.pending r e' in
        let next = on_answer-due r a (left to_text server 0 w.page) in
        rw (step-answered to_text server r 0 a w.page e') (omega arith)

  drained_lem :
      (n : ℕ) (w : World N S)
      → InStep to_text server w
      → answers_due w.page.pending ≤ n
      → InStep to_text server (drained to_text server n w)
        × ((drained to_text server n w).page.pending ≡ [])
  drained_lem zero w h due = (h, nothing_due w.page.pending due)
  drained_lem (suc n) w h due =
      drained_lem n (go to_text server (arrives 0) w)
        (step-InStep to_text server w h (arrives 0) (inl tt))
        (hear-due w h n (get_elem? w.replies 0) refl due)

  -- For any such server: after any events, with any number of requests on their way whose answers arrive
  -- in order, the page shows the tickers of the server when the answers that are due have arrived.
  pub watching_lem :
      (c : ℕ) (token : Text) (actions : List (Action N)) (s : S) (n : ℕ)
      → server.IsSound s
      → AreOrdered to_text server actions (open_page server (c ∷ token) s)
      → answers_due (go_all to_text server actions (open_page server (c ∷ token) s)).page.pending
        ≤ n
      → (let w =
            drained to_text server n
              (go_all to_text server actions (open_page server (c ∷ token) s)) in
          (w.page.pending ≡ []) × (shown w.page ≡ server.tickers w.server))
  watching_lem c token actions s n sound ordered due =
      let w = go_all to_text server actions (open_page server (c ∷ token) s) in
      let start = open_page-InStep to_text server c token s sound in
      let led =
        drained_lem n w
          (go_all-InStep to_text server actions (open_page server (c ∷ token) s) start ordered)
          due in
      (led.1, shown-tickers to_text server (drained to_text server n w) led.0 led.1)
