-- ===== src/Tests/Live.antt =====
-- Requests in flight, the page with its chart, and the guard's matcher, at concrete inputs.
use stock_anomoly_detection.Prelude.{
  ℕ, ◌+◌, ◌*◌, ◌-◌, ◌||◌, ◌≡◌, refl, ◌↔◌, ◌⊎◌, inl, inr, true, List, [], ◌∷◌, Option, none, some,
  length, ltb, if◌then◌else◌, Within, arith,
}
use stock_anomoly_detection.Text.{Text, codes, decimal}
use stock_anomoly_detection.Dashboard.{Item, Stock, Tick, failed, ok, listed}
use stock_anomoly_detection.Dashboard.Search.{shown_results}
use stock_anomoly_detection.Dashboard.Events as Events
use stock_anomoly_detection.Dashboard.Stocks.{Agrees}
use stock_anomoly_detection.Dashboard.Requests as Requests
use stock_anomoly_detection.Dashboard.Requests.{
  Request, search, subscriptions, add, remove, LivePage, typed, focused, timer_fired,
  subscribe_clicked, answered, live,
}
use stock_anomoly_detection.Dashboard.Requests.Searching.{
  IsFresh, found_stocks, run-IsFresh, search_shows,
}
use stock_anomoly_detection.Dashboard.Requests.Late.{
  live_page, late_subscriptions_restore, refetch_disagrees, stale_results,
}
use stock_anomoly_detection.Chart.Ticks.{tick_update}
use stock_anomoly_detection.Chart.Session.{initial}
use stock_anomoly_detection.App as App
use stock_anomoly_detection.App.{App, on_page, on_chart, loaded_changed, price_of}
use stock_anomoly_detection.App.Linked.{IsLinked, run-IsLinked}
use stock_anomoly_detection.App.Prices.{unseen_tick, seen_tick}
use stock_anomoly_detection.Auth.{truthy, redirect, next}
use stock_anomoly_detection.Auth.Matcher.{handle, Begins, IsAside, IsEntrance, handle_lem}
use stock_anomoly_detection.Tests.Series.{two_candles}
use stock_anomoly_detection.Tests.Pages.{samsung, page, tick}

abbrev samsung_item : Item
samsung_item = record { ticker = codes "005930"; name = codes "Samsung"; price = none }

abbrev hynix_item : Item
hynix_item = record { ticker = codes "000660"; name = codes "SK hynix"; price = none }

abbrev quiet : LivePage ℕ
quiet = live_page page []

abbrev typing : List (Requests.Event ℕ)
typing =
    typed (codes "SK")
    ∷ timer_fired
    ∷ typed (codes "SKC")
    ∷ subscribe_clicked (codes "000660")
    ∷ answered 1 failed
    ∷ answered 0 (ok (hynix_item ∷ []))
    ∷ timer_fired
    ∷ live (Events.ticked tick)
    ∷ []

run-IsFresh_example : IsFresh (Requests.run decimal typing quiet)
run-IsFresh_example = run-IsFresh decimal typing quiet (record { timely = tt; long = tt })

search_shows_example :
    shown_results
      (Requests.run decimal
        (typed (codes "SK") ∷ timer_fired ∷ answered 0 (ok (hynix_item ∷ [])) ∷ [])
        quiet).dashboard
    ≡ (if ltb (length (codes "SK")) 2 then [] else found_stocks (hynix_item ∷ []))
search_shows_example = search_shows decimal (codes "SK") (hynix_item ∷ []) quiet (ground arith)

stale_results_example :
    (let p =
        Requests.run decimal
          (answered 1 (ok (hynix_item ∷ [])) ∷ answered 0 (ok (samsung_item ∷ [])) ∷ [])
          (live_page page (search (codes "Sa") ∷ search (codes "SK") ∷ [])) in
      (p.dashboard.search_results ≡ found_stocks (samsung_item ∷ []))
      × (p.dashboard.show_search_results ≡ true)
      × (p.dashboard.new_ticker ≡ page.new_ticker)
      × (p.pending ≡ []))
stale_results_example =
    stale_results decimal page (codes "Sa") (codes "SK") (samsung_item ∷ []) (hynix_item ∷ [])

late_subscriptions_restore_example :
    (let p =
        Requests.run decimal
          (answered 1 (ok []) ∷ answered 0 (ok (samsung_item ∷ hynix_item ∷ [])) ∷ [])
          (live_page page (subscriptions ∷ remove (codes "000660") ∷ [])) in
      (s : Stock) × Within s p.dashboard.stocks × (s.ticker ≡ codes "000660"))
late_subscriptions_restore_example =
    late_subscriptions_restore decimal page (codes "000660") [] (samsung_item ∷ hynix_item ∷ [])
      hynix_item (inr (inl refl)) refl

-- Samsung after a tick
abbrev moved_samsung : Stock
moved_samsung = record samsung { price = codes "71000"; change = codes "+2%" }

refetch_disagrees_example : ¬ (
    let p = Requests.run decimal (answered 0 (ok []) ∷ answered 0 (ok (samsung_item ∷ [])) ∷ []) (
      live_page
        (record page { selected_stock = some moved_samsung })
        (add (codes "000660") ∷ [])) in
    Agrees p.dashboard.selected_stock p.dashboard.stocks)
unfolding listed
refetch_disagrees_example =
    refetch_disagrees decimal (record page { selected_stock = some moved_samsung }) moved_samsung
      (codes "000660") [] (samsung_item ∷ []) samsung_item refl (inl refl) refl (ground arith)

-- the number at the head of a text
abbrev pub digits : Text → Option ℕ → Option ℕ
digits [] n = n
digits (c ∷ s) none = if ltb c 48 || ltb 57 c then none else digits s (some (c - 48))
digits (c ∷ s) (some n) =
    if ltb c 48 || ltb 57 c then some n else digits s (some (n * 10 + (c - 48)))

abbrev pub parse_float : Text → Option ℕ
parse_float t = digits t none

abbrev app : App ℕ
app = record {
  page = record page { selected_stock = some samsung };
  chart = record {
    chart = record initial {
      chart_api = true;
      candle_series = true;
      volume_series = true;
      is_chart_ready = true;
      is_history_loaded = true;
      is_history_loaded_ref = true;
      ohlcv_data = two_candles;
      ohlcv_data_ref = two_candles;
    };
    selected = some (codes "005930");
    more = [];
    histories = [];
  };
}

abbrev app_events : List (App.Event ℕ)
app_events =
    on_page (Events.ticked tick) 1767195065000
    ∷ loaded_changed 1767195065000
    ∷ on_page (Events.selected 1) 1767195066000
    ∷ on_chart App.chart_ready
    ∷ on_page (Events.unsubscribed (codes "000660") (ok tt)) 1767195067000
    ∷ []

run-IsLinked_example : IsLinked (App.run decimal parse_float app_events app)
unfolding listed
run-IsLinked_example = run-IsLinked decimal parse_float app_events app refl

-- the price that is shown already
abbrev same_price : Tick ℕ
same_price = record tick { price = 0 }

unseen_tick_example :
    (App.step decimal parse_float (on_page (Events.ticked same_price) 1767195125000) app).chart
    ≡ app.chart
unfolding listed decimal
unseen_tick_example = unseen_tick decimal parse_float same_price 1767195125000 app (inr refl)

seen_tick_example :
    (let b = App.step decimal parse_float (on_page (Events.ticked tick) 1767195065000) app in
      (price_of b.page.selected_stock ≡ some (decimal 71000))
      × (b.chart.chart.ohlcv_data
          ≡ (tick_update app.chart.chart.interval_ref 71000 1767195065000 two_candles).0))
unfolding listed decimal
seen_tick_example =
    seen_tick decimal parse_float tick 1767195065000 71000 app samsung refl refl (ground arith) refl
      (ground arith) refl refl (ground arith)

handle_lem_example :
    ((handle (codes "/settings") none ≡ redirect (codes "/auth/login")) ↔ (
      Begins (codes "/") (codes "/settings")
      × (¬ IsAside (codes "/settings"))
      × (¬ IsEntrance (codes "/settings"))
      × (truthy none ≡ none)))
    × ((handle (codes "/settings") none ≡ next)
        ⊎ (handle (codes "/settings") none ≡ redirect (codes "/auth/login")))
    × (handle (codes "/") none ≡ redirect (codes "/auth/login"))
    × (handle (codes "/settings/profile") none ≡ redirect (codes "/auth/login"))
    × (handle (codes "/auth/login") none ≡ next)
handle_lem_example = handle_lem (codes "/settings") none
