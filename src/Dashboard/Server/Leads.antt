-- ===== src/Dashboard/Server/Leads.antt =====
-- Where the answers that are on their way take the list of the page.
use mathlib.Core.Path.{subst}
use stock_anomoly_detection.Prelude.{
  ℕ, zero, suc, ◌≡◌, refl, sym, ap, ◌∙◌, List, [], ◌∷◌, ◌++◌, Option, none, some, inl, inr, take,
  All, arith,
}
use stock_anomoly_detection.Dashboard.{Item, Answer, failed, not_ok, ok, map_option}
use stock_anomoly_detection.Text.{Text}
use stock_anomoly_detection.Dashboard.Events.{get_elem?}
use stock_anomoly_detection.Dashboard.Requests.{
  Request, search, subscriptions, add, remove, without,
}
use stock_anomoly_detection.Dashboard.Server.{
  Tells, tickers_of, drop_ticker, IsSearch, IsQuery, IsNext,
}

-- The list after an answer; none where it is to be fetched anew.
abbrev pub heard : Request → Answer (List Item) → Option (List Text) → Option (List Text)
heard (search query) a o = o
heard subscriptions failed o = o
heard subscriptions not_ok o = o
heard subscriptions (ok items) o = some (tickers_of items)
heard (add ticker) failed o = o
heard (add ticker) not_ok o = o
heard (add ticker) (ok body) o = none
heard (remove ticker) failed o = o
heard (remove ticker) not_ok o = o
heard (remove ticker) (ok body) o = map_option (drop_ticker ticker) o

-- Every request has its answer, and the answers lead from the list to that of the server.
abbrev pub Leads :
    List Request → List (Answer (List Item)) → Option (List Text) → List Text → Type 0
Leads [] [] none s = Unit
Leads [] [] (some l) s = l ≡ s
Leads [] (a ∷ bs) o s = ⊥
Leads (r ∷ rs) [] o s = ⊥
Leads (r ∷ rs) (a ∷ bs) o s = Leads rs bs (heard r a o) s

Leads-nil :
    (o : Option (List Text)) (s s' : List Text) → s' ≡ s → Leads [] [] o s → Leads [] [] o s'
Leads-nil none s s' e h = tt
Leads-nil (some l) s s' e h = h ∙ sym e

Leads-one :
    (r : Request) (a : Answer (List Item)) (o : Option (List Text)) (s s' : List Text)
    → Leads [] [] o s
    → Tells r a s s'
    → Leads [] [] (heard r a o) s'
Leads-one (search query) a o s s' h t = Leads-nil o s s' t h
Leads-one subscriptions failed o s s' h t = absurd t
Leads-one subscriptions not_ok o s s' h t = absurd t
Leads-one subscriptions (ok items) o s s' h t = t.0 ∙ sym t.1
Leads-one (add ticker) failed o s s' h t = Leads-nil o s s' t h
Leads-one (add ticker) not_ok o s s' h t = Leads-nil o s s' t h
Leads-one (add ticker) (ok body) o s s' h t = tt
Leads-one (remove ticker) failed o s s' h t = Leads-nil o s s' t h
Leads-one (remove ticker) not_ok o s s' h t = Leads-nil o s s' t h
Leads-one (remove ticker) (ok body) none s s' h t = tt
Leads-one (remove ticker) (ok body) (some l) s s' h t = ap (drop_ticker ticker) h ∙ sym t

-- a new request and its answer
pub Leads-append :
    (rs : List Request) (bs : List (Answer (List Item))) (r : Request) (a : Answer (List Item))
    (o : Option (List Text)) (s s' : List Text)
    → Leads rs bs o s
    → Tells r a s s'
    → Leads (rs ++ r ∷ []) (bs ++ a ∷ []) o s'
Leads-append [] [] r a o s s' h t = Leads-one r a o s s' h t
Leads-append [] (b ∷ bs) r a o s s' h t = absurd h
Leads-append (q ∷ rs) [] r a o s s' h t = absurd h
Leads-append (q ∷ rs) (b ∷ bs) r a o s s' h t = Leads-append rs bs r a (heard q b o) s s' h t

-- a list that is fetched last leads to the server's from any other
pub Leads-fetched :
    (rs : List Request) (bs : List (Answer (List Item))) (a : Answer (List Item))
    (o o' : Option (List Text)) (s s' : List Text)
    → Leads rs bs o s
    → Tells subscriptions a s s'
    → Leads (rs ++ subscriptions ∷ []) (bs ++ a ∷ []) o' s'
Leads-fetched [] [] failed o o' s s' h t = absurd t
Leads-fetched [] [] not_ok o o' s s' h t = absurd t
Leads-fetched [] [] (ok items) o o' s s' h t = t.0 ∙ sym t.1
Leads-fetched [] (b ∷ bs) a o o' s s' h t = absurd h
Leads-fetched (q ∷ rs) [] a o o' s s' h t = absurd h
Leads-fetched (q ∷ rs) (b ∷ bs) a o o' s s' h t =
    Leads-fetched rs bs a (heard q b o) (heard q b o') s s' h t

-- each answer belongs to a request
pub request_of :
    (rs : List Request) (bs : List (Answer (List Item))) (n : ℕ) (a : Answer (List Item))
    (o : Option (List Text)) (s : List Text)
    → Leads rs bs o s
    → get_elem? bs n ≡ some a
    → (r : Request) × (get_elem? rs n ≡ some r)
request_of [] [] n a o s h e = absurd (ground arith)
request_of [] (b ∷ bs) n a o s h e = absurd h
request_of (q ∷ rs) [] n a o s h e = absurd h
request_of (q ∷ rs) (b ∷ bs) zero a o s h e = (q, refl)
request_of (q ∷ rs) (b ∷ bs) (suc n) a o s h e = request_of rs bs n a (heard q b o) s h e

heard-search :
    (r : Request) (a : Answer (List Item)) (o : Option (List Text)) → IsSearch r → heard r a o ≡ o
heard-search (search query) a o h = refl
heard-search subscriptions a o h = absurd h
heard-search (add ticker) a o h = absurd h
heard-search (remove ticker) a o h = absurd h

Leads-search :
    (rs : List Request) (bs : List (Answer (List Item))) (n : ℕ) (r : Request)
    (o : Option (List Text)) (s : List Text)
    → IsSearch r
    → get_elem? rs n ≡ some r
    → Leads rs bs o s
    → Leads (without n rs) (without n bs) o s
Leads-search [] bs n r o s q e h = absurd (ground arith)
Leads-search (x ∷ rs) [] n r o s q e h = absurd h
Leads-search (x ∷ rs) (b ∷ bs) zero r o s q e h =
    let same : x ≡ r = ground arith in
    subst (λ o. Leads rs bs o s) (heard-search x b o (rw same q)) h
Leads-search (x ∷ rs) (b ∷ bs) (suc n) r o s q e h = Leads-search rs bs n r (heard x b o) s q e h

Leads-first :
    (rs : List Request) (bs : List (Answer (List Item))) (n : ℕ) (r : Request)
    (a : Answer (List Item)) (o : Option (List Text)) (s : List Text)
    → All IsSearch (take n rs)
    → get_elem? rs n ≡ some r
    → get_elem? bs n ≡ some a
    → Leads rs bs o s
    → Leads (without n rs) (without n bs) (heard r a o) s
Leads-first [] bs n r a o s q e e' h = absurd (ground arith)
Leads-first (x ∷ rs) [] n r a o s q e e' h = absurd h
Leads-first (x ∷ rs) (b ∷ bs) zero r a o s q e e' h =
    let same : x ≡ r = ground arith in let same' : b ≡ a = ground arith in rw (← same, ← same') h
Leads-first (x ∷ rs) (b ∷ bs) (suc n) r a o s q e e' h =
    let f = heard-search x b in
    rw (f (heard r a o) q.0)
      (Leads-first rs bs n r a o s q.1 e e' (subst (λ o. Leads rs bs o s) (f o q.0) h))

-- an answer that arrives in its turn
pub Leads-without :
    (rs : List Request) (bs : List (Answer (List Item))) (n : ℕ) (r : Request)
    (a : Answer (List Item)) (o : Option (List Text)) (s : List Text)
    → IsNext n rs
    → get_elem? rs n ≡ some r
    → get_elem? bs n ≡ some a
    → Leads rs bs o s
    → Leads (without n rs) (without n bs) (heard r a o) s
Leads-without rs bs n r a o s (inl q) e e' h = Leads-first rs bs n r a o s q e e' h
Leads-without rs bs n r a o s (inr q) e e' h =
    let is_search = subst IsQuery e q in
    rw (heard-search r a o is_search) (Leads-search rs bs n r o s is_search e h)
