-- ===== src/Chart/Session/ScrollBack.antt =====
-- Scrolling back through a stock's history comes to an end.
mod Asking
pub mod End
use mathlib.Core.Path.{subst}
use stock_anomoly_detection.Prelude.{
  ℕ, zero, suc, ◌+◌, ◌≤◌, ◌<◌, ◌≡◌, refl, sym, ap, ◌∙◌, ◌≢◌, ◌⊎◌, inl, inr, Bool, true, false, not,
  ◌||◌, List, [], ◌∷◌, Option, none, some, length, ltb, ◌==◌, if◌then◌else◌, All, arith, Bool-cases,
}
use stock_anomoly_detection.Text.{Text}
use stock_anomoly_detection.Keyed.Put.{find, IsDistinct}
use stock_anomoly_detection.Keyed.Count.{Covers, length-le_of_Covers}
use stock_anomoly_detection.Chart.{OhlcvPoint, Interval}
use stock_anomoly_detection.Chart.Paging.{merge_older, end_date, earliest_point}
use stock_anomoly_detection.Chart.Paging.Merge.{time_of, merge_older-All}
use stock_anomoly_detection.Chart.Paging.Pages.{merged-IsDistinct}
use stock_anomoly_detection.Chart.Session.{
  PriceChart, MoreRequest, Response, ok, load_more, start_loading, sync_ohlcv_data, show_data, push,
}
use stock_anomoly_detection.Chart.Session.Handlers.{
  LogicalRange, near_start, on_range, on_visible_range, on_more, add_older,
}
use stock_anomoly_detection.Chart.Session.Steps.{
  World, Event, also, data_synced, scrolled, more_answered, scroll, answer_more, step,
}

abbrev pub reply : (MoreRequest → List OhlcvPoint) → List MoreRequest → List OhlcvPoint
reply server [] = []
reply server (q ∷ rest) = server q

-- The user scrolls to the start, the server answers the request, if any, and React renders.
unfoldable pub scroll_round : (MoreRequest → List OhlcvPoint) → LogicalRange → World → World
scroll_round server range w =
    let asked = step (scrolled (some range)) w in
    step data_synced (step (more_answered (ok (reply server asked.more))) asked)

unfoldable pub scroll_rounds : (MoreRequest → List OhlcvPoint) → LogicalRange → ℕ → World → World
unfolding scroll_round
scroll_rounds server range zero w = w
scroll_rounds server range (suc n) w = scroll_rounds server range n (scroll_round server range w)

-- a chart whose history is there and rendered, and that waits for nothing; `known` has the times
-- of its candles
pub record IsScrolling (known : List OhlcvPoint) (ticker : Text) (w : World) : Type 0 where
  pub selected : w.selected ≡ some ticker
  pub idle : w.more ≡ []
  pub not_fetching : w.chart.is_fetching_ref ≡ false
  pub loaded : w.chart.is_history_loaded_ref ≡ true
  pub has_data : w.chart.ohlcv_data_ref ≢ []
  pub distinct : IsDistinct time_of w.chart.ohlcv_data_ref
  pub from_known : Covers time_of known w.chart.ohlcv_data_ref
  pub synced : w.chart.ohlcv_data ≡ w.chart.ohlcv_data_ref
