-- ===== src/Dashboard/Search.antt =====
-- The search box and the subscriptions of web-app/app/page.tsx.
use stock_anomoly_detection.Prelude.{
  Bool, true, false, not, List, [], ◌∷◌, map, Option, none, some, keep, length, ltb, if◌then◌else◌,
}
use stock_anomoly_detection.Text.{Text, codes, text_eq}
use stock_anomoly_detection.Dashboard.{
  Stock, Dashboard, Item, listed, subscribed_price, text_or, Answer, failed, not_ok, ok,
}

abbrev pub non_empty : Text → Option Text
non_empty [] = none
non_empty (c ∷ s) = some (c ∷ s)

abbrev pub deselect : Text → Option Stock → Option Stock
deselect ticker none = none
deselect ticker (some s) = if text_eq s.ticker ticker then none else some s

module _ {N : Type 0} where
  -- the first effect up to the event stream: with a token, the page is shown and the subscriptions
  -- are asked for with it
  unfoldable pub check_token : Option Text → Dashboard N → Dashboard N × Option Text
  check_token none d = (d, none)
  check_token (some []) d = (d, none)
  check_token (some (c ∷ token)) d = (record d { loading = false }, some (c ∷ token))

  -- `fetchSubscriptions`, from its `await` on
  unfoldable pub on_subscriptions : Answer (List Item) → Dashboard N → Dashboard N
  on_subscriptions failed d = d
  on_subscriptions not_ok d = d
  on_subscriptions (ok items) d = record d {
    stocks = map (λ item. listed item (subscribed_price item.price)) items;
  }

  -- `searchStocks`, which the timer runs 300 ms after the last change of the text, with the text of
  -- its closure: the query asked
  unfoldable pub search_stocks : Text → Dashboard N → Dashboard N × Option Text
  search_stocks new_ticker d =
      if ltb (length new_ticker) 2
      then (record d { search_results = []; show_search_results = false }, none)
      else (d, some new_ticker)

  unfoldable pub on_found : Answer (List Item) → Dashboard N → Dashboard N
  on_found failed d = d
  on_found not_ok d = d
  on_found (ok items) d = record d {
    search_results = map (λ item. listed item (text_or item.price (codes "0"))) items;
    show_search_results = true;
  }

  -- `onChange` and `onFocus` of the input
  unfoldable pub type_text : Text → Dashboard N → Dashboard N
  type_text text d = record d { new_ticker = text }

  unfoldable pub focus : Dashboard N → Dashboard N
  focus d = if not (ltb (length d.new_ticker) 2) then record d { show_search_results = true } else d

  -- the results under the input, if they are shown
  unfoldable pub shown_results : Dashboard N → List Stock
  shown_results d = if d.show_search_results then d.search_results else []

  -- `handleSubscribe` up to its `await`: the ticker asked for, if any
  unfoldable pub subscribe : Option Text → Dashboard N → Option Text
  subscribe ticker_to_add d = non_empty (text_or ticker_to_add d.new_ticker)

  -- after a successful answer the subscriptions are fetched anew
  unfoldable pub on_subscribed : Answer (Unit {0}) → Dashboard N → Dashboard N × Bool
  on_subscribed failed d = (d, false)
  on_subscribed not_ok d = (d, false)
  on_subscribed (ok _) d = (record d { new_ticker = []; show_search_results = false }, true)

  -- `handleUnsubscribe`, from its `await` on
  unfoldable pub on_unsubscribed : Text → Answer (Unit {0}) → Dashboard N → Dashboard N
  on_unsubscribed ticker failed d = d
  on_unsubscribed ticker not_ok d = d
  on_unsubscribed ticker (ok _) d = record d {
    stocks = keep (λ (s : Stock). not (text_eq s.ticker ticker)) d.stocks;
    selected_stock = deselect ticker d.selected_stock;
  }
