-- ===== src/Dashboard/Server/Watching.antt =====
-- The watch list of web-app/app/page.tsx and the subscriptions of the server.
use mathlib.Core.Path.{subst}
use stock_anomoly_detection.Prelude.{ℕ, ◌≡◌, refl, sym, List, [], ◌∷◌, Option, none, some, inl, inr}
use stock_anomoly_detection.Text.{Text}
use stock_anomoly_detection.Dashboard.{Item, Answer}
use stock_anomoly_detection.Dashboard.Search.{check_token}
use stock_anomoly_detection.Dashboard.Events.{get_elem?}
use stock_anomoly_detection.Dashboard.Requests.{
  Request, LivePage, answered, without, on_answer, answer_request, step,
}
use stock_anomoly_detection.Dashboard.Server.{
  Server, World, Action, acts, arrives, IsNext, IsOrdered, AreOrdered, shown, opened, follow, hear,
  go, go_all, open_page,
}
use stock_anomoly_detection.Dashboard.Server.Leads.{Leads, heard, request_of, Leads-without}
use stock_anomoly_detection.Dashboard.Server.Acts.{on_answer_cases, step-own}
use stock_anomoly_detection.Dashboard.Server.Follows.{IsLed, follow-IsLed, fetched-IsLed}

at_rest : (bs : List (Answer (List Item))) (l s : List Text) → Leads [] bs (some l) s → l ≡ s
at_rest [] l s h = h
at_rest (b ∷ bs) l s h = absurd h

module _ {N S : Type 0} (to_text : N → Text) (server : Server S) where
  -- the page will show the list of the server
  abbrev pub InStep : World N S → Type 0
  InStep w = IsLed server w (some (shown w.page))

  -- the page when the answer to its n-th request is taken
  abbrev pub left : ℕ → LivePage N → LivePage N
  left n p = record p { pending = without n p.pending }

  pub step-answered :
      (r : Request) (n : ℕ) (a : Answer (List Item)) (p : LivePage N)
      → get_elem? p.pending n ≡ some r
      → step to_text (answered n a) p ≡ on_answer r a (left n p)
  unfolding step answer_request
  step-answered r n a p e = rw e refl

  answer-InStep :
      (r : Request) (a : Answer (List Item)) (p : LivePage N) (bs : List (Answer (List Item)))
      (s : S)
      → server.IsSound s
      → Leads p.pending bs (heard r a (some (shown p))) (server.tickers s)
      → InStep (follow server (on_answer r a p) bs s)
  answer-InStep r a p bs s sound h = elim (on_answer_cases r a p) [
    | inl (e, l) ↦
        follow-IsLed server bs s sound p.pending (on_answer r a p) (some (shown (on_answer r a p)))
          (inl e) (subst (λ o. Leads p.pending bs o (server.tickers s)) l h)
    | inr (e, l, is_add) ↦
        fetched-IsLed server bs s sound p.pending (on_answer r a p) (heard r a (some (shown p)))
          (some (shown (on_answer r a p))) e h
  ]

  module _ (w : World N S) (h : InStep w) where
    hear-InStep :
        (o : Option (Answer (List Item))) (n : ℕ)
        → get_elem? w.replies n ≡ o
        → IsNext n w.page.pending
        → InStep (hear to_text server o n w)
    hear-InStep none n e first = h
    hear-InStep (some a) n e first =
        let o = some (shown w.page) in
        let (r, e') = request_of w.page.pending w.replies n a o (server.tickers w.server) h.0 e in
        subst (λ p. InStep (follow server p (without n w.replies) w.server))
          (sym (step-answered r n a w.page e'))
          (answer-InStep r a (left n w.page) (without n w.replies) w.server h.1 (
            Leads-without w.page.pending w.replies n r a o (server.tickers w.server) first e' e
              h.0))

    pub step-InStep : (x : Action N) → IsOrdered to_text server x w → InStep (go to_text server x w)
    step-InStep (acts e) own =
        let (grows, same) = step-own to_text server.IsPlain e w.page own in
        subst (λ l. IsLed server (go to_text server (acts e) w) (some l)) (sym same)
          (follow-IsLed server w.replies w.server h.1 w.page.pending (step to_text e w.page)
            (some (shown w.page)) grows h.0)
    step-InStep (arrives n) first = hear-InStep (get_elem? w.replies n) n refl first

  pub go_all-InStep :
      (xs : List (Action N)) (w : World N S)
      → InStep w
      → AreOrdered to_text server xs w
      → InStep (go_all to_text server xs w)
  go_all-InStep [] w h ordered = h
  go_all-InStep (x ∷ xs) w h ordered =
      go_all-InStep xs (go to_text server x w) (step-InStep w h x ordered.0) ordered.1

  pub open_page-InStep :
      (c : ℕ) (token : Text) (s : S) → server.IsSound s → InStep (open_page server (c ∷ token) s)
  unfolding check_token
  open_page-InStep c token s sound =
      fetched-IsLed server {N = N} [] s sound [] (opened (c ∷ token)) none (some []) refl tt

  -- nothing is on its way
  pub shown-tickers :
      (w : World N S) → InStep w → w.page.pending ≡ [] → shown w.page ≡ server.tickers w.server
  shown-tickers w h e =
      let led =
        subst (λ rs. Leads rs w.replies (some (shown w.page)) (server.tickers w.server)) e h.0 in
      at_rest w.replies (shown w.page) (server.tickers w.server) led
