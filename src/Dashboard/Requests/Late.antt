-- ===== src/Dashboard/Requests/Late.antt =====
-- Answers that arrive after the page has moved on.
use mathlib.Core.Path.{subst}
use stock_anomoly_detection.Prelude.{
  ◌≡◌, refl, sym, ap, ◌≢◌, true, List, [], ◌∷◌, map, none, some, inl, inr, Within, All-within,
}
use stock_anomoly_detection.Text.{Text, codes}
use stock_anomoly_detection.Dashboard.{Dashboard, Item, Stock, ok, listed, subscribed_price}
use stock_anomoly_detection.Dashboard.Search.{on_subscriptions, on_found, on_subscribed}
use stock_anomoly_detection.Dashboard.Stocks.{Agrees}
use stock_anomoly_detection.Dashboard.Requests.{
  Request, search, subscriptions, add, remove, LivePage, answered, rendered, on_answer,
  answer_request, step, run,
}
use stock_anomoly_detection.Dashboard.Requests.Searching.{found_stocks}

abbrev pub live_page : {N : Type 0} → Dashboard N → List Request → LivePage N
live_page d pending = record { dashboard = d; timer = none; pending = pending }

-- the stocks that the items of the watch list are shown as
abbrev pub listed_stock : Item → Stock
listed_stock item = listed item (subscribed_price item.price)

Within-map : {A B : Type 0} (f : A → B) (x : A) (l : List A) → Within x l → Within (f x) (map f l)
Within-map f x [] w = w
Within-map f x (y ∷ l) (inl e) = inl (ap f e)
Within-map f x (y ∷ l) (inr w) = inr (Within-map f x l w)

module _ {N : Type 0} (to_text : N → Text) where
  -- Where the answers to two searches arrive in the other order, the results of the former query
  -- replace those of the latter, and are shown.
  pub stale_results :
      (d : Dashboard N) (former latter : Text) (old new : List Item)
      → (let p =
            run to_text
              (answered 1 (ok new) ∷ answered 0 (ok old) ∷ [])
              (live_page d (search former ∷ search latter ∷ [])) in
          (p.dashboard.search_results ≡ found_stocks old)
          × (p.dashboard.show_search_results ≡ true)
          × (p.dashboard.new_ticker ≡ d.new_ticker)
          × (p.pending ≡ []))
  unfolding run step answer_request on_answer rendered on_found
  stale_results d former latter old new = (refl, refl, refl, refl)

  -- Where the list of subscriptions is asked for before a stock is unsubscribed, and arrives after the
  -- unsubscription's answer, every stock of that list is back on the page, the removed one too.
  pub late_subscriptions_restore :
      (d : Dashboard N) (ticker : Text) (body items : List Item) (item : Item)
      → Within item items
      → item.ticker ≡ ticker
      → (let p =
            run to_text
              (answered 1 (ok body) ∷ answered 0 (ok items) ∷ [])
              (live_page d (subscriptions ∷ remove ticker ∷ [])) in
          (s : Stock) × Within s p.dashboard.stocks × (s.ticker ≡ ticker))
  unfolding run step answer_request on_answer rendered on_subscriptions listed
  late_subscriptions_restore d ticker body items item w e =
      (listed_stock item, Within-map listed_stock item items w, e)

  -- After a subscription the list is fetched anew; the listed stock with the selected stock's ticker then
  -- shows no change, while the selected stock keeps the change of its last tick: they disagree.
  pub refetch_disagrees :
      (d : Dashboard N) (s : Stock) (ticker : Text) (body items : List Item) (item : Item)
      → d.selected_stock ≡ some s
      → Within item items
      → item.ticker ≡ s.ticker
      → s.change ≢ codes "0.00%"
      → ¬ (
          let p =
            run to_text
              (answered 0 (ok body) ∷ answered 0 (ok items) ∷ [])
              (live_page d (add ticker ∷ [])) in
          Agrees p.dashboard.selected_stock p.dashboard.stocks)
  unfolding run step answer_request on_answer rendered on_subscribed on_subscriptions listed
  refetch_disagrees d s ticker body items item e w same moved agrees =
      let all = subst (λ o. Agrees o (map listed_stock items)) e agrees in
      moved (
        sym (
          ap (λ (t : Stock). t.change)
            (All-within (λ (t : Stock). t.ticker ≡ s.ticker → t ≡ s) (listed_stock item)
              (map listed_stock items) all (Within-map listed_stock item items w) same)))
