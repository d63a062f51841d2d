-- ===== src/Dashboard/Server/Follows.antt =====
-- The server answers the requests of each step of web-app/app/page.tsx.
use stock_anomoly_detection.Prelude.{◌≡◌, refl, List, [], ◌∷◌, ◌++◌, Option, inl, inr}
use stock_anomoly_detection.Text.{Text}
use stock_anomoly_detection.Dashboard.{Item, Answer}
use stock_anomoly_detection.Dashboard.Requests.{Request, subscriptions, LivePage}
use stock_anomoly_detection.Dashboard.Server.{Server, World, follow, settle}
use stock_anomoly_detection.Dashboard.Server.Acts.{Grows}
use stock_anomoly_detection.Dashboard.Server.Leads.{Leads, heard, Leads-append, Leads-fetched}

-- The server is sound, and the answers lead to its list.
abbrev pub IsLed : {N S : Type 0} → Server S → World N S → Option (List Text) → Type 0
IsLed server w o =
    Leads w.page.pending w.replies o (server.tickers w.server) × server.IsSound w.server

module _ {S : Type 0} (server : Server S) where
  settle_same :
      (rs : List Request) (bs : List (Answer (List Item))) (o : Option (List Text)) (l : List Text)
      (s : S)
      → Leads rs bs o l
      → settle server rs bs s ≡ (s, bs)
  settle_same [] bs o l s h = refl
  settle_same (r ∷ rs) [] o l s h = absurd h
  settle_same (r ∷ rs) (b ∷ bs) o l s h = rw (settle_same rs bs (heard r b o) l s h) refl

  settle_one_more :
      (rs : List Request) (bs : List (Answer (List Item))) (r : Request) (o : Option (List Text))
      (l : List Text) (s : S)
      → Leads rs bs o l
      → settle server (rs ++ r ∷ []) bs s
        ≡ ((server.handle r s).0, bs ++ (server.handle r s).1 ∷ [])
  settle_one_more [] [] r o l s h = refl
  settle_one_more [] (b ∷ bs) r o l s h = absurd h
  settle_one_more (q ∷ rs) [] r o l s h = absurd h
  settle_one_more (q ∷ rs) (b ∷ bs) r o l s h =
      rw (settle_one_more rs bs r (heard q b o) l s h) refl

  module _ {N : Type 0} (bs : List (Answer (List Item))) (s : S) (sound : server.IsSound s) where
    -- a page with the same requests, or one more
    pub follow-IsLed :
        (rs : List Request) (p : LivePage N) (o : Option (List Text))
        → Grows server.IsPlain rs p.pending
        → Leads rs bs o (server.tickers s)
        → IsLed server (follow server p bs s) o
    follow-IsLed rs p o (inl e) h = rw (e, settle_same rs bs o (server.tickers s) s h) (h, sound)
    follow-IsLed rs p o (inr (r, e, fit)) h =
        let more = settle_one_more rs bs r o (server.tickers s) s h in
        rw (e, more)
          (
            Leads-append rs bs r (server.handle r s).1 o (server.tickers s)
                (server.tickers (server.handle r s).0) h (server.handle-Tells r s fit sound),
            server.handle-IsSound r s fit sound,
          )

    -- the list is asked for again
    pub fetched-IsLed :
        (rs : List Request) (p : LivePage N) (o o' : Option (List Text))
        → p.pending ≡ rs ++ subscriptions ∷ []
        → Leads rs bs o (server.tickers s)
        → IsLed server (follow server p bs s) o'
    fetched-IsLed rs p o o' e h =
        let answer = server.handle subscriptions s in
        let more = settle_one_more rs bs subscriptions o (server.tickers s) s h in
        rw (e, more)
          (
            Leads-fetched rs bs answer.1 o o' (server.tickers s) (server.tickers answer.0) h
                (server.handle-Tells subscriptions s tt sound),
            server.handle-IsSound subscriptions s tt sound,
          )
