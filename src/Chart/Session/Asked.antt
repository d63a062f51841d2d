-- ===== src/Chart/Session/Asked.antt =====
-- The requests of `loadMore` and what the server answers to them.
use mathlib.Core.Path.{subst}
use stock_anomoly_detection.Prelude.{
  ◌≤◌, ◌<◌, ◌≡◌, sym, not, ◌||◌, List, [], ◌∷◌, none, some, All, Bool-cases, inl, inr, arith,
}
use stock_anomoly_detection.Text.{Text}
use stock_anomoly_detection.Chart.{OhlcvPoint, Interval}
use stock_anomoly_detection.Chart.Series.Order.{IsSeconds}
use stock_anomoly_detection.Chart.Ticks.Buckets.{bucket}
use stock_anomoly_detection.Chart.Ticks.Outcome.{IsSeries}
use stock_anomoly_detection.Chart.Paging.{earliest_point, end_date}
use stock_anomoly_detection.Chart.Paging.Prepend.{IsPage}
use stock_anomoly_detection.Chart.Paging.Minutes.{IsAnswer, answer-IsPage}
use stock_anomoly_detection.Chart.Session.{PriceChart, MoreRequest, start_loading, load_more}

-- the request for candles before a series that is not empty
request_for : Text → Interval → OhlcvPoint → List OhlcvPoint → MoreRequest
request_for ticker i first rest = record {
  ticker = ticker;
  interval = i;
  end_date = end_date i (earliest_point first (first ∷ rest)).time;
  current_data = first ∷ rest;
}

start_loading-request :
    (t : Text) (i : Interval) (c : PriceChart) (first : OhlcvPoint) (rest : List OhlcvPoint)
    (q : MoreRequest)
    → (start_loading t i c (first ∷ rest)).1 ≡ some q
    → request_for t i first rest ≡ q
unfolding start_loading request_for
start_loading-request t i c first rest q e =
    elim (Bool-cases (c.is_fetching_ref || not c.is_history_loaded_ref)) [
      | inl busy ↦ let no_request : none ≡ some q = rw busy at e in cc
      | inr idle ↦ let made : some (request_for t i first rest) ≡ some q = rw idle at e in cc
    ]

without_first :
    {A B : Type 0} (R : A → B → Type 0) (q : B) (l : List B) (more : List A)
    → All (λ p. All (R p) (q ∷ l)) more
    → All (λ p. All (R p) l) more
without_first R q l [] h = tt
without_first R q l (p ∷ more) h = (h.0.1, without_first R q l more h.1)

request-IsPage :
    (t : Text) (i : Interval) (first : OhlcvPoint) (rest more : List OhlcvPoint)
    → All (λ (d : OhlcvPoint). 86400 ≤ d.time) (first ∷ rest)
    → All IsSeconds (first ∷ rest)
    → IsSeries i more
    → All (IsAnswer i (request_for t i first rest).end_date) more
    → IsPage i (first ∷ rest) more
unfolding request_for
request-IsPage t i first rest more from secs s upto =
    let page = answer-IsPage i first (first ∷ rest) more (from.0, from) (secs.0, secs) s upto in
    record {
      series = s;
      before =
          without_first (λ (p q : OhlcvPoint). bucket i p.time < bucket i q.time) first
            (first ∷ rest) more page.before;
    }

loading-IsPage :
    (t : Text) (i : Interval) (c : PriceChart) (points : List OhlcvPoint) (q : MoreRequest)
    (more : List OhlcvPoint)
    → (start_loading t i c points).1 ≡ some q
    → All (λ (d : OhlcvPoint). 86400 ≤ d.time) points
    → All IsSeconds points
    → IsSeries i more
    → All (IsAnswer i q.end_date) more
    → IsPage i points more
loading-IsPage t i c [] q more e from secs s upto =
    absurd (let none_asked : none ≡ some q = unfold start_loading in e in ground arith)
loading-IsPage t i c (first ∷ rest) q more e from secs s upto =
    request-IsPage t i first rest more from secs s (
      subst (λ (r : MoreRequest). All (IsAnswer i r.end_date) more)
        (sym (start_loading-request t i c first rest q e)) upto)

-- On every interval, where `loadMore` makes a request, the candles in the ref, in any order, are from
-- 1970-01-02 on, and the server answers with a series of candles up to the minute that the request's end
-- date writes on "1m", and up to the day that it writes on the others: the answer is a page, each of its
-- candles in a minute, or on a day, before those of all candles in the ref.
pub load_more-IsPage :
    (t : Text) (i : Interval) (c : PriceChart) (q : MoreRequest) (more : List OhlcvPoint)
    → (load_more t i c).1 ≡ some q
    → All (λ (d : OhlcvPoint). 86400 ≤ d.time) c.ohlcv_data_ref
    → All IsSeconds c.ohlcv_data_ref
    → IsSeries i more
    → All (IsAnswer i q.end_date) more
    → IsPage i c.ohlcv_data_ref more
unfolding load_more
load_more-IsPage t i c q more e from secs s upto =
    loading-IsPage t i c c.ohlcv_data_ref q more e from secs s upto
