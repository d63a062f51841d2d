-- ===== src/Chart/Session/Overwritten.antt =====
-- Prices that arrive while older candles are on their way.
use stock_anomoly_detection.Prelude.{◌<◌, ◌≡◌, ap, ◌∙◌, ◌≢◌, List, [], ◌∷◌, ◌++◌, some, length}
use stock_anomoly_detection.Chart.{OhlcvPoint}
use stock_anomoly_detection.Chart.Ticks.{PendingTick}
use stock_anomoly_detection.Chart.Paging.{merge_older}
use stock_anomoly_detection.Chart.Session.{MoreRequest, ok}
use stock_anomoly_detection.Chart.Session.Steps.{
  World, more_answered, priced, answer_more, step, run,
}
use stock_anomoly_detection.Chart.Session.Switch.{on_more-grown}
use stock_anomoly_detection.Chart.Session.Races.{price_events}

answer_more-grown :
    (q : MoreRequest) (l : List MoreRequest) (more : List OhlcvPoint) (w : World)
    → length q.current_data < length (merge_older more q.current_data)
    → more ≢ []
    → (answer_more (ok more) (q ∷ l) w).chart.ohlcv_data ≡ merge_older more q.current_data
unfolding answer_more
answer_more-grown q l more w h n = on_more-grown q more w.chart h n

-- Where older candles have been asked for, any prices arrive, and then the answer with candles that are
-- new, the series is the answer merged with the one at the request: no such price is left in it.
pub prices_overwritten :
    (ts : List PendingTick) (q : MoreRequest) (l : List MoreRequest) (more : List OhlcvPoint)
    (w : World)
    → w.more ≡ q ∷ l
    → length q.current_data < length (merge_older more q.current_data)
    → more ≢ []
    → (run (price_events ts ++ more_answered (ok more) ∷ []) w).chart.ohlcv_data
      ≡ merge_older more q.current_data
unfolding run step
prices_overwritten [] q l more w e h n =
    ap (λ rs. (answer_more (ok more) rs w).chart.ohlcv_data) e ∙ answer_more-grown q l more w h n
prices_overwritten (t ∷ ts) q l more w e h n =
    prices_overwritten ts q l more (step (priced (some t.price) t.timestamp) w) e h n
