-- ===== src/Chart/Session/ScrollBack/End.antt =====
-- Scrolling back ends.
use mathlib.Core.Path.{subst}
use stock_anomoly_detection.Prelude.{
  ℕ, zero, suc, ◌+◌, ◌<◌, ◌≡◌, refl, sym, ap, ◌∙◌, ◌≢◌, ◌⊎◌, inl, inr, Bool, true, false, List, [],
  ◌∷◌, Option, none, some, length, arith, Bool-cases,
}
use stock_anomoly_detection.Text.{Text}
use stock_anomoly_detection.Keyed.Put.{find, IsDistinct}
use stock_anomoly_detection.Keyed.Count.{Covers, length-le_of_Covers}
use stock_anomoly_detection.Chart.{OhlcvPoint}
use stock_anomoly_detection.Chart.Paging.{merge_older}
use stock_anomoly_detection.Chart.Paging.Merge.{time_of, merge_older-All}
use stock_anomoly_detection.Chart.Paging.Pages.{merged-IsDistinct}
use stock_anomoly_detection.Chart.Session.{PriceChart, MoreRequest, ok, sync_ohlcv_data}
use stock_anomoly_detection.Chart.Session.Handlers.{
  LogicalRange, near_start, on_range, on_visible_range, on_more,
}
use stock_anomoly_detection.Chart.Session.Steps.{World, also, scrolled, scroll, step}
use stock_anomoly_detection.Chart.Session.ScrollBack.{scroll_round, scroll_rounds, IsScrolling}
use stock_anomoly_detection.Chart.Session.ScrollBack.Asking.{
  busy, Answered, on_more-Answered, round_asking, round_idle, not_empty,
}

module _ (server : MoreRequest → List OhlcvPoint) (range : LogicalRange)
    (near : near_start range ≡ true) (known : List OhlcvPoint) (ticker : Text) where
  module _ (answers : (q : MoreRequest) → Covers time_of known (server q)) where
    -- what holds again after a round, and how far it got
    abbrev Advanced : World → World → Type 0
    Advanced w v =
        IsScrolling known ticker v
        × ((v.chart.no_more_data_ref ≡ true)
            ⊎ ((w.chart.no_more_data_ref ≡ false)
                × (length w.chart.ohlcv_data_ref < length v.chart.ohlcv_data_ref)))

    merged-covered :
        (more current : List OhlcvPoint)
        → Covers time_of known more
        → Covers time_of known current
        → Covers time_of known (merge_older more current)
    merged-covered more current h k =
        merge_older-All (λ p. find time_of p.time known ≢ none) more current h k

    scroll_round-Advanced :
        (w : World) → IsScrolling known ticker w → Advanced w (scroll_round server range w)
    unfolding sync_ohlcv_data
    scroll_round-Advanced w h = elim (Bool-cases w.chart.no_more_data_ref) [
      | inl done ↦ rw (round_idle server range near known ticker w h done) (
        record {
          selected = h.selected;
          idle = refl;
          not_fetching = h.not_fetching;
          loaded = h.loaded;
          has_data = subst (λ l. l ≢ []) (sym h.synced) h.has_data;
          distinct = subst (IsDistinct time_of) (sym h.synced) h.distinct;
          from_known = subst (Covers time_of known) (sym h.synced) h.from_known;
          synced = refl;
        },
        inl done,
      )
      | inr more ↦
          let (q, same, e) = round_asking server range near known ticker w h more in
          let c = sync_ohlcv_data (on_more q (ok (server q)) (busy w.chart)) in
          rw e (next w h more q same c (on_more-Answered q (server q) w.chart))
    ]
      where
        next :
            (w : World)
            → IsScrolling known ticker w
            → w.chart.no_more_data_ref ≡ false
            → (q : MoreRequest) → q.current_data ≡ w.chart.ohlcv_data_ref
            → (c : PriceChart) → Answered (server q) q.current_data w.chart c
            → Advanced w (record w { chart = c; more = [] })
        next w h more q same c (free, loaded, synced, inl (kept, done)) = (
          record {
            selected = h.selected;
            idle = refl;
            not_fetching = free;
            loaded = loaded ∙ h.loaded;
            has_data = subst (λ l. l ≢ []) (sym (kept ∙ h.synced)) h.has_data;
            distinct = subst (IsDistinct time_of) (sym (kept ∙ h.synced)) h.distinct;
            from_known = subst (Covers time_of known) (sym (kept ∙ h.synced)) h.from_known;
            synced = synced;
          },
          inl done,
        )
        next w h more q same c (free, loaded, synced, inr (merged, grown)) =
            let longer : length w.chart.ohlcv_data_ref < length c.ohlcv_data_ref =
              omega
                (arith, ap (length {A = OhlcvPoint}) same, ap (length {A = OhlcvPoint}) merged) in
            (
              record {
                selected = h.selected;
                idle = refl;
                not_fetching = free;
                loaded = loaded ∙ h.loaded;
                has_data = not_empty c.ohlcv_data_ref longer;
                distinct =
                    subst (IsDistinct time_of) (sym merged)
                      (merged-IsDistinct (server q) q.current_data);
                from_known = subst (Covers time_of known) (sym merged) (
                    merged-covered (server q) q.current_data (answers q)
                      (subst (Covers time_of known) (sym same) h.from_known));
                synced = synced;
              },
              inr (more, longer),
            )

    scroll_rounds-stop :
        (n : ℕ) (w : World)
        → IsScrolling known ticker w
        → (w.chart.no_more_data_ref ≡ true) ⊎ (length known < n + length w.chart.ohlcv_data_ref)
        → IsScrolling known ticker (scroll_rounds server range n w)
          × ((scroll_rounds server range n w).chart.no_more_data_ref ≡ true)
    unfolding scroll_rounds
    scroll_rounds-stop zero w h (inl done) = (h, done)
    scroll_rounds-stop zero w h (inr enough) = absurd (
        omega
          (arith, length-le_of_Covers time_of w.chart.ohlcv_data_ref known h.distinct h.from_known))
    scroll_rounds-stop (suc n) w h enough =
        let (held, further) = scroll_round-Advanced w h in
        scroll_rounds-stop n (scroll_round server range w) held (closer n enough further)
      where
        closer :
            (m : ℕ) {a b : ℕ} {before after : Bool}
            → (before ≡ true) ⊎ (length known < suc m + a)
            → (after ≡ true) ⊎ ((before ≡ false) × (a < b))
            → (after ≡ true) ⊎ (length known < m + b)
        closer m e (inl done) = inl done
        closer m (inl was_done) (inr (not_done, longer)) = absurd (ground arith)
        closer m (inr enough) (inr (not_done, longer)) = inr (omega arith)

    -- Where every candle that the server has is of one of the times of `known`, scrolling back to the
    -- start as often as `known` is long, with every request answered, leads to the end: nothing is on
    -- its way, and no further scrolling asks for more.
    pub scroll_rounds-end :
        (w : World) (further : LogicalRange)
        → IsScrolling known ticker w
        → ((scroll_rounds server range (length known) w).chart.no_more_data_ref ≡ true)
          × ((step (scrolled (some further)) (scroll_rounds server range (length known) w)).more
              ≡ [])
    unfolding step scroll on_visible_range on_range
    scroll_rounds-end w further h =
        let v = scroll_rounds server range (length known) w in
        let (held, done) =
          scroll_rounds-stop (length known) w h
            (inr (some_points w.chart.ohlcv_data_ref h.has_data)) in
        (
          done,
          ap (λ o. (scroll o (some further) v).more) held.selected
              ∙ ap (λ (r : PriceChart × Option MoreRequest). also v.more r.1) (quiet v.chart done)
              ∙ held.idle,
        )
      where
        some_points : (l : List OhlcvPoint) → l ≢ [] → length known < length known + length l
        some_points [] k = absurd (k refl)
        some_points (x ∷ l) k = omega arith

        quiet :
            (s : PriceChart)
            → s.no_more_data_ref ≡ true
            → on_range ticker s.interval further s ≡ (s, none)
        quiet s m = ground arith
