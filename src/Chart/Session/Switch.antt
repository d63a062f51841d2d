-- ===== src/Chart/Session/Switch.antt =====
-- The chart component right after another interval is chosen.
use stock_anomoly_detection.Prelude.{
  ◌<◌, ◌≡◌, refl, ◌≢◌, Bool, true, false, List, [], ◌∷◌, Option, some, length, arith, lt→ltb, ap,
}
use stock_anomoly_detection.Text.{Text}
use stock_anomoly_detection.Chart.{OhlcvPoint, Interval}
use stock_anomoly_detection.Chart.Paging.{merge_older}
use stock_anomoly_detection.Chart.Session.{
  PriceChart, sync_interval, clean_up, initialize_chart, push, show_data, MoreRequest, Response,
  failed, not_ok, ok,
}
use stock_anomoly_detection.Chart.Session.Handlers.{
  on_more, add_older, HistoryRequest, load_history, on_history, apply_all, fit,
}
use stock_anomoly_detection.Chart.Session.Steps.{World, set_interval, also, rebuild, reload, step}

-- the answer to a request for older candles decides the series, whatever the chart shows by then
pub on_more-grown :
    (q : MoreRequest) (more : List OhlcvPoint) (s : PriceChart)
    → length q.current_data < length (merge_older more q.current_data)
    → more ≢ []
    → (on_more q (ok more) s).ohlcv_data ≡ merge_older more q.current_data
unfolding on_more add_older show_data push
on_more-grown q [] s h k = absurd (k refl)
on_more-grown q (m ∷ more) s h k =
    rw (lt→ltb (length q.current_data) (length (merge_older (m ∷ more) q.current_data)) h)

pub on_more-interval :
    (q : MoreRequest) (r : Response) (s : PriceChart) → (on_more q r s).interval ≡ s.interval
unfolding on_more add_older show_data push
on_more-interval q failed s = refl
on_more-interval q not_ok s = refl
on_more-interval q (ok []) s = refl
on_more-interval q (ok (m ∷ more)) s = ground arith

pub on_history-interval : (r : Response) (s : PriceChart) → (on_history r s).interval ≡ s.interval
unfolding on_history fit show_data push apply_all
on_history-interval failed s = refl
on_history-interval not_ok s = refl
on_history-interval (ok h) s = ground arith

pub rebuilt-interval :
    (b : Bool) (s : PriceChart)
    → (initialize_chart b (sync_interval (clean_up s))).interval ≡ s.interval
unfolding initialize_chart sync_interval clean_up push
rebuilt-interval b s = ground arith

-- a chart of a selected stock with unanswered requests
abbrev pub world : PriceChart → Text → List MoreRequest → World
world s ticker more = record { chart = s; selected = some ticker; more = more; histories = [] }

-- the chart right after an interval is chosen
abbrev pub switched : Interval → PriceChart → PriceChart
switched j s =
    record (initialize_chart true (sync_interval (clean_up (record s { interval = j })))) {
      is_history_loaded = false;
    }

abbrev pub first_request : Text → PriceChart → HistoryRequest
first_request ticker s = record { ticker = ticker; interval = s.interval }

pub load_history-some :
    (ticker : Text) (ready : Bool) (s : PriceChart)
    → ready ≡ true
    → load_history (some ticker) ready s
      ≡ (record s { is_history_loaded = false }, some (first_request ticker s))
unfolding load_history
load_history-some ticker true s e = refl
load_history-some ticker false s e = absurd (ground arith)

pub set_interval_lem :
    (s : PriceChart) (ticker : Text) (more : List MoreRequest) (j : Interval)
    → s.is_chart_ready ≡ true
    → step (set_interval j) (world s ticker more) ≡ record {
      chart = switched j s;
      selected = some ticker;
      more = more;
      histories = first_request ticker (switched j s) ∷ [];
    }
unfolding step reload rebuild
set_interval_lem s ticker more j ready =
    ap
      (λ (r : PriceChart × Option HistoryRequest).
        let w : World = record {
          chart = r.0;
          selected = some ticker;
          more = more;
          histories = also [] r.1;
        } in
        w)
      (load_history-some ticker s.is_chart_ready
        (initialize_chart true (sync_interval (clean_up (record s { interval = j })))) ready)
