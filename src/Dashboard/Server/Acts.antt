-- ===== src/Dashboard/Server/Acts.antt =====
-- What the events and the answers of web-app/app/page.tsx do to the tickers of the watch list.
use stock_anomoly_detection.Prelude.{
  ◌≡◌, refl, sym, ap, List, [], ◌∷◌, ◌++◌, map, Option, none, some, ◌⊎◌, inl, inr, keep, if_cases,
  not, Bool-cases, ltb, length,
}
use stock_anomoly_detection.Text.{Text, text_eq}
use stock_anomoly_detection.Dashboard.{
  Item, Stock, Answer, Dashboard, Tick, failed, not_ok, ok, update_stock, on_stock_tick,
  on_anomaly_alert, on_ai_signal, select_stock, listed, subscribed_price,
}
use stock_anomoly_detection.Dashboard.Search.{
  search_stocks, type_text, focus, subscribe, on_subscriptions, on_found, on_subscribed,
  on_unsubscribed,
}
use stock_anomoly_detection.Dashboard.Stocks.{update_stock-ticker}
use stock_anomoly_detection.Dashboard.Events as Events
use stock_anomoly_detection.Dashboard.Events.{
  ticked, alerted, signalled, selected, unsubscribed, click, get_elem?,
}
use stock_anomoly_detection.Dashboard.Requests.{
  Request, search, subscriptions, add, remove, LivePage, Event, typed, focused, timer_fired,
  subscribe_clicked, unsubscribe_clicked, answered, live, asked, rendered, fire, on_answer, step,
}
use stock_anomoly_detection.Dashboard.Server.{IsOwn, IsKept, IsFit, shown, drop_ticker, tickers_of}
use stock_anomoly_detection.Dashboard.Server.Leads.{heard}

abbrev pub names : List Stock → List Text
names ss = map (λ (s : Stock). s.ticker) ss

names-listed :
    (items : List Item)
    → names (map (λ item. listed item (subscribed_price item.price)) items) ≡ tickers_of items
unfolding listed
names-listed [] = refl
names-listed (item ∷ items) = ap (◌∷◌ item.ticker) (names-listed items)

names-keep :
    (ticker : Text) (ss : List Stock)
    → names (keep (λ (s : Stock). not (text_eq s.ticker ticker)) ss) ≡ drop_ticker ticker (names ss)
names-keep ticker [] = refl
names-keep ticker (s ∷ ss) = elim (Bool-cases (text_eq s.ticker ticker)) [
  | inl e ↦ rw e (names-keep ticker ss)
  | inr e ↦ rw e (ap (◌∷◌ s.ticker) (names-keep ticker ss))
]

abbrev pub IsAdd : Request → Type 0
IsAdd (search query) = ⊥
IsAdd subscriptions = ⊥
IsAdd (add ticker) = Unit
IsAdd (remove ticker) = ⊥

-- the same requests, or one more
abbrev pub Grows : (Text → Type 0) → List Request → List Request → Type 0
Grows P rs rs' = (rs' ≡ rs) ⊎ ((r : Request) × (rs' ≡ rs ++ r ∷ []) × IsFit P r)

Grows-added :
    (P : Text → Type 0) (rs : List Request) (o : Option Text)
    → IsKept P o
    → Grows P rs (asked add rs o)
Grows-added P rs none h = inl refl
Grows-added P rs (some t) h = inr (add t, refl, h)

module _ {N : Type 0} where
  fire_lem :
      (P : Text → Type 0) (t : Option Text) (p : LivePage N)
      → Grows P p.pending (fire t p).pending × (shown (fire t p) ≡ shown p)
  unfolding fire search_stocks
  fire_lem P none p = (inl refl, refl)
  fire_lem P (some text) p = elim (Bool-cases (ltb (length text) 2)) [
    | inl e ↦ rw e (inl refl, refl)
    | inr e ↦ rw e (inr (search text, refl, tt), refl)
  ]

  focus-stocks : (d : Dashboard N) → (focus d).stocks ≡ d.stocks
  unfolding focus
  focus-stocks d =
      if_cases (λ (e : Dashboard N). e.stocks ≡ d.stocks) (not (ltb (length d.new_ticker) 2))
        (λ _. refl) (λ _. refl)

  -- an answer leads to the tickers that the page then shows, or the list is asked for again
  pub on_answer_cases :
      (r : Request) (a : Answer (List Item)) (p : LivePage N)
      → (let q = on_answer r a p in
          ((q.pending ≡ p.pending) × (heard r a (some (shown p)) ≡ some (shown q)))
          ⊎ ((q.pending ≡ p.pending ++ subscriptions ∷ [])
              × (heard r a (some (shown p)) ≡ none)
              × (IsAdd r)))
  unfolding on_answer rendered on_found on_subscriptions on_subscribed on_unsubscribed
  on_answer_cases (search query) failed p = inl (refl, refl)
  on_answer_cases (search query) not_ok p = inl (refl, refl)
  on_answer_cases (search query) (ok items) p = inl (refl, refl)
  on_answer_cases subscriptions failed p = inl (refl, refl)
  on_answer_cases subscriptions not_ok p = inl (refl, refl)
  on_answer_cases subscriptions (ok items) p = inl (refl, ap some (sym (names-listed items)))
  on_answer_cases (add ticker) failed p = inl (refl, refl)
  on_answer_cases (add ticker) not_ok p = inl (refl, refl)
  on_answer_cases (add ticker) (ok body) p = inr (refl, refl, tt)
  on_answer_cases (remove ticker) failed p = inl (refl, refl)
  on_answer_cases (remove ticker) not_ok p = inl (refl, refl)
  on_answer_cases (remove ticker) (ok body) p =
      inl (refl, ap some (sym (names-keep ticker p.dashboard.stocks)))

  module _ (to_text : N → Text) where
    names-update :
        (tick : Tick N) (ss : List Stock) → names (map (update_stock to_text tick) ss) ≡ names ss
    names-update tick [] = refl
    names-update tick (s ∷ ss) = rw (update_stock-ticker to_text tick s, names-update tick ss) refl

    click-stocks : (o : Option Stock) (d : Dashboard N) → (click to_text o d).stocks ≡ d.stocks
    unfolding click select_stock
    click-stocks none d = refl
    click-stocks (some s) d = refl

    -- an event that is no answer makes one request at most and leaves the tickers
    pub step-own :
        (P : Text → Type 0) (e : Event N) (p : LivePage N)
        → IsOwn P e p
        → Grows P p.pending (step to_text e p).pending × (shown (step to_text e p) ≡ shown p)
    unfolding step rendered Events.step on_stock_tick on_anomaly_alert on_ai_signal type_text
    step-own P (typed text) p h = (inl refl, refl)
    step-own P focused p h = (inl refl, ap names (focus-stocks p.dashboard))
    step-own P timer_fired p h = fire_lem P p.timer p
    step-own P (subscribe_clicked ticker) p h =
        (Grows-added P p.pending (subscribe (some ticker) p.dashboard) h, refl)
    step-own P (unsubscribe_clicked ticker) p h = (inr (remove ticker, refl, h), refl)
    step-own P (answered n answer) p h = absurd h
    step-own P (live (ticked tick)) p h = (inl refl, names-update tick p.dashboard.stocks)
    step-own P (live (alerted raw)) p h = (inl refl, refl)
    step-own P (live (signalled raw)) p h = (inl refl, refl)
    step-own P (live (selected n)) p h =
        (inl refl, ap names (click-stocks (get_elem? p.dashboard.stocks n) p.dashboard))
    step-own P (live (unsubscribed ticker answer)) p h = absurd h
