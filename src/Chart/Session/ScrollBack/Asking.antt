-- ===== src/Chart/Session/ScrollBack/Asking.antt =====
-- One scroll to the start of the chart, with its answer.
use stock_anomoly_detection.Prelude.{
  ℕ, ◌<◌, ◌≡◌, refl, ap, ◌∙◌, ◌≢◌, ◌⊎◌, inl, inr, true, false, List, [], ◌∷◌, Option, none, some,
  length, ltb, ◌==◌, arith, Bool-cases,
}
use stock_anomoly_detection.Text.{Text}
use stock_anomoly_detection.Chart.{OhlcvPoint, Interval}
use stock_anomoly_detection.Chart.Paging.{merge_older, end_date, earliest_point}
use stock_anomoly_detection.Chart.Session.{
  PriceChart, MoreRequest, ok, load_more, start_loading, sync_ohlcv_data, show_data, push,
}
use stock_anomoly_detection.Chart.Session.Handlers.{
  LogicalRange, near_start, on_range, on_visible_range, on_more, add_older,
}
use stock_anomoly_detection.Chart.Session.Steps.{
  World, also, data_synced, more_answered, scroll, answer_more, step,
}
use stock_anomoly_detection.Chart.Session.ScrollBack.{reply, scroll_round, IsScrolling}

abbrev pub busy : PriceChart → PriceChart
busy s = record s { is_fetching_ref = true; is_loading_more = true }

start_loading_lem :
    (t : Text) (i : Interval) (s : PriceChart) (points : List OhlcvPoint)
    → s.is_fetching_ref ≡ false
    → s.is_history_loaded_ref ≡ true
    → points ≢ []
    → (q : MoreRequest) × (q.current_data ≡ points)
      × (start_loading t i s points ≡ (busy s, some q))
unfolding start_loading
start_loading_lem t i s [] free loaded h = absurd (h refl)
start_loading_lem t i s (p ∷ ps) free loaded h = (
  record {
    ticker = t;
    interval = i;
    end_date = end_date i (earliest_point p (p ∷ ps)).time;
    current_data = p ∷ ps;
  },
  refl,
  simp (free, loaded),
)

on_range_lem :
    (t : Text) (i : Interval) (range : LogicalRange) (s : PriceChart)
    → s.is_fetching_ref ≡ false
    → s.no_more_data_ref ≡ false
    → s.is_history_loaded_ref ≡ true
    → s.ohlcv_data_ref ≢ []
    → near_start range ≡ true
    → (q : MoreRequest) × (q.current_data ≡ s.ohlcv_data_ref)
      × (on_range t i range s ≡ (busy s, some q))
unfolding on_range load_more
on_range_lem t i range s free more loaded h near =
    let (q, same, e) = start_loading_lem t i s s.ohlcv_data_ref free loaded h in
    (q, same, ground (arith, e, nonempty s.ohlcv_data_ref h))
  where
    nonempty : (l : List OhlcvPoint) → l ≢ [] → (length l == 0) ≡ false
    nonempty [] k = absurd (k refl)
    nonempty (x ∷ l) k = ground arith

pub not_empty : (l : List OhlcvPoint) {n : ℕ} → n < length l → l ≢ []
not_empty [] lt = absurd (omega arith)
not_empty (x ∷ l) lt = ground arith

-- the chart after an answer and a render: either nothing is new and no more is asked for, or the
-- series has grown
abbrev pub Answered : List OhlcvPoint → List OhlcvPoint → PriceChart → PriceChart → Type 0
Answered more current s c =
    (c.is_fetching_ref ≡ false)
    × (c.is_history_loaded_ref ≡ s.is_history_loaded_ref)
    × (c.ohlcv_data ≡ c.ohlcv_data_ref)
    × (((c.ohlcv_data_ref ≡ s.ohlcv_data) × (c.no_more_data_ref ≡ true))
        ⊎ ((c.ohlcv_data_ref ≡ merge_older more current)
            × (length current < length (merge_older more current))))

pub on_more-Answered :
    (q : MoreRequest) (more : List OhlcvPoint) (s : PriceChart)
    → Answered more q.current_data s (sync_ohlcv_data (on_more q (ok more) (busy s)))
unfolding on_more add_older sync_ohlcv_data show_data push
on_more-Answered q [] s = (refl, refl, refl, inl (refl, refl))
on_more-Answered q (m ∷ more) s =
    elim (Bool-cases
      (ltb (length q.current_data) (length (merge_older (m ∷ more) q.current_data)))) [
        | inl grown ↦ rw grown (refl, refl, refl, inr (refl, ground arith))
        | inr same ↦ rw same (refl, refl, refl, inl (refl, refl))
      ]

module _ (server : MoreRequest → List OhlcvPoint) (range : LogicalRange)
    (near : near_start range ≡ true) (known : List OhlcvPoint) (ticker : Text) where
  -- a round in which a request is made
  pub round_asking :
      (w : World)
      → IsScrolling known ticker w
      → w.chart.no_more_data_ref ≡ false
      → (q : MoreRequest) × (q.current_data ≡ w.chart.ohlcv_data_ref)
        × (scroll_round server range w ≡ record w {
          chart = sync_ohlcv_data (on_more q (ok (server q)) (busy w.chart));
          more = [];
        })
  unfolding scroll_round step scroll on_visible_range answer_more
  round_asking w h more =
      let (q, same, e) =
        on_range_lem ticker w.chart.interval range w.chart h.not_fetching more h.loaded h.has_data
          near in
      let finish =
        λ (a : World). step data_synced (step (more_answered (ok (reply server a.more))) a) in
      (
        q,
        same,
        ap (λ o. finish (scroll o (some range) w)) h.selected
            ∙ ap
                (λ (r : PriceChart × Option MoreRequest).
                  finish (record w { chart = r.0; more = also w.more r.1 }))
                e
            ∙ ap (λ l. finish (record w { chart = busy w.chart; more = also l (some q) })) h.idle,
      )

  -- a round in which no request is made changes nothing
  pub round_idle :
      (w : World)
      → IsScrolling known ticker w
      → w.chart.no_more_data_ref ≡ true
      → scroll_round server range w ≡ record w { chart = sync_ohlcv_data w.chart; more = [] }
  unfolding scroll_round step scroll on_visible_range answer_more on_range
  round_idle w h more =
      let finish =
        λ (a : World). step data_synced (step (more_answered (ok (reply server a.more))) a) in
      ap (λ o. finish (scroll o (some range) w)) h.selected
      ∙ ap
          (λ (r : PriceChart × Option MoreRequest).
            finish (record w { chart = r.0; more = also w.more r.1 }))
          (quiet w.chart more)
      ∙ ap (λ l. finish (record w { more = l })) h.idle
    where
      quiet :
          (s : PriceChart)
          → s.no_more_data_ref ≡ true
          → on_range ticker s.interval range s ≡ (s, none)
      quiet s m = ground arith
