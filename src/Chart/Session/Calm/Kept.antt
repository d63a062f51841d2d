-- ===== src/Chart/Session/Calm/Kept.antt =====
-- What keeps the promise of a calm visit: choices, answered histories, and effects that copy nothing.
use mathlib.Core.Path.{subst}
use stock_anomoly_detection.Prelude.{
  ◌≤◌, ◌≡◌, ◌≢◌, refl, sym, ap, ◌∙◌, Bool, true, false, List, [], ◌∷◌, Option, none, some, length,
  arith,
}
use stock_anomoly_detection.Text.{Text}
use stock_anomoly_detection.Chart.{OhlcvPoint, Interval}
use stock_anomoly_detection.Chart.Display.{CandlestickSeries}
use stock_anomoly_detection.Chart.Session.{PriceChart, Response, failed, not_ok, ok}
use stock_anomoly_detection.Chart.Session.Handlers.{HistoryRequest, load_history, on_history}
use stock_anomoly_detection.Chart.Session.Steps.{
  with_candles, World, Event, history_answered, also, answered, without, rebuild, reload,
  run_history, answer_history, answer_more, step,
}
use stock_anomoly_detection.Chart.Session.Live.{IsCurrent}
use stock_anomoly_detection.Chart.Session.Live.Steps.{step-IsLive}
use stock_anomoly_detection.Chart.Session.Calm.{
  empty, next, IsHistory, IsBlank, IsEmpty, IsShowing, Promise,
}
use stock_anomoly_detection.Chart.Session.Calm.Rebuild.{
  IsWhole, rebuild-IsBlank, rebuild-asked, load_history-IsBlank, load_history-asked,
}
use stock_anomoly_detection.Chart.Session.Calm.Empty.{unanswered-IsEmpty, on_history-IsShown}
use stock_anomoly_detection.Chart.Session.Calm.Frame.{SameFrame, on_history-frame}

only_one :
    (hs : List HistoryRequest) → length hs ≤ 1 → hs ≢ [] → (q : HistoryRequest) × (hs ≡ q ∷ [])
only_one [] h n = absurd (n refl)
only_one (q ∷ []) h n = (q, refl)
only_one (q ∷ r ∷ hs) h n = absurd (omega arith)

answer_history-first :
    (r : Response) (q : HistoryRequest) (w : World)
    → w.histories ≡ q ∷ []
    → answer_history 0 r w ≡ record w { chart = on_history r w.chart; histories = [] }
unfolding answer_history
answer_history-first r q w e = ap choose e
  where
    choose : List HistoryRequest → World
    choose hs = elim (answered 0 hs) [
      | true ↦ record w { chart = on_history r w.chart; histories = without 0 hs }
      | false ↦ w
    ]

pub rechosen-IsWhole :
    (j : Interval) (c : PriceChart) → IsWhole c → IsWhole (record c { interval = j })
rechosen-IsWhole j c h = record {
  candles_same = h.candles_same;
  volumes_same = h.volumes_same;
  ready_there = h.ready_there;
  no_points = h.no_points;
}

module _ (api : CandlestickSeries) (start : api.Series) where
  -- the chart and the history request, if any, that an effect leaves where none was on its way
  opened-IsEmpty :
      (r : PriceChart × Option HistoryRequest) (o : Option Text) (w : World)
      → w.more ≡ []
      → w.histories ≡ []
      → IsBlank api start r.0
      → (r.1 ≢ none → r.0.chart_api ≡ true)
      → IsEmpty api start (record w { chart = r.0; selected = o; histories = also w.histories r.1 })
  opened-IsEmpty (c, none) o w m e b a = record {
    chart = b;
    no_more = m;
    one_history = rw e (omega arith);
    asked = λ n. absurd (n e);
  }
  opened-IsEmpty (c, some q) o w m e b a = record {
    chart = b;
    no_more = m;
    one_history = rw e (omega arith);
    asked = λ _. a (ground arith);
  }

  pub blank-IsWhole : (c : PriceChart) → IsBlank api start c → IsWhole c
  blank-IsWhole c h = record {
    candles_same = h.candles_same;
    volumes_same = h.volumes_same;
    ready_there = h.ready_there;
    no_points = λ _. h.no_candles;
  }

  pub showing-IsWhole : (i : Interval) (w : World) → IsShowing api start i w → IsWhole w.chart
  showing-IsWhole i w h = record {
    candles_same = h.series.chart.candles_there ∙ sym h.there;
    volumes_same = h.series.chart.volumes_there ∙ sym h.there;
    ready_there = λ _. h.there;
    no_points = λ gone. absurd (let t = h.there in ground arith);
  }

  pub reload-IsEmpty :
      (o : Option Text) (ready : Bool) (c : PriceChart) (w : World)
      → w.more ≡ []
      → w.histories ≡ []
      → IsWhole c
      → IsEmpty api start (reload o ready c w)
  unfolding reload
  reload-IsEmpty o ready c w m e h =
      opened-IsEmpty (rebuild o ready c) o w m e (rebuild-IsBlank api start o ready c h)
        (rebuild-asked o ready c)

  pub run_history-IsEmpty :
      (w : World) → IsEmpty api start w → w.histories ≡ [] → IsEmpty api start (run_history w)
  unfolding run_history
  run_history-IsEmpty w h e =
      opened-IsEmpty (load_history w.selected w.chart.is_chart_ready w.chart) w.selected w h.no_more
        e (load_history-IsBlank api start w.selected w.chart.is_chart_ready w.chart h.chart)
        (load_history-asked w.selected w.chart.is_chart_ready w.chart h.chart.ready_there)

  answered-Promise :
      (r : Response) (q : HistoryRequest) (w : World)
      → IsEmpty api start w
      → w.chart.chart_api ≡ true
      → IsHistory w.chart.interval r
      → Promise api start
          (next empty (history_answered 0 r) w.chart.interval)
          (record w { chart = on_history r w.chart; histories = [] })
  unfolding on_history
  answered-Promise failed q w h there k = unanswered-IsEmpty api start w [] h refl
  answered-Promise not_ok q w h there k = unanswered-IsEmpty api start w [] h refl
  answered-Promise (ok history) q w h there k = record {
    series = record {
      chart = on_history-IsShown api start history w.chart h.chart there k;
      asked = rw h.no_more tt;
    };
    there = ap (λ f. f.0) (on_history-frame (ok history) w.chart) ∙ there;
    chosen = ap (λ f. f.1) (on_history-frame (ok history) w.chart);
    no_histories = refl;
  }

  pub history-Promise :
      (r : Response) (w : World)
      → IsEmpty api start w
      → w.histories ≢ []
      → IsHistory w.chart.interval r
      → Promise api start
          (next empty (history_answered 0 r) w.chart.interval)
          (answer_history 0 r w)
  history-Promise r w h n k =
      let (q, e) = only_one w.histories h.one_history n in
      subst (Promise api start (next empty (history_answered 0 r) w.chart.interval))
        (sym (answer_history-first r q w e)) (answered-Promise r q w h (h.asked n) k)

  pub current-IsShowing :
      (i : Interval) (e : Event) (w : World)
      → IsCurrent i e w
      → SameFrame (step e w) w
      → IsShowing api start i w
      → IsShowing api start i (step e w)
  current-IsShowing i e w a f h = record {
    series = step-IsLive api i start e w a h.series;
    there = ap (λ g. g.0) f.0 ∙ h.there;
    chosen = ap (λ g. g.1) f.0 ∙ h.chosen;
    no_histories = f.1 ∙ h.no_histories;
  }

  pub nothing_more : (r : Response) (w : World) → w.more ≡ [] → answer_more r w.more w ≡ w
  unfolding answer_more
  nothing_more r w e = ap (λ l. answer_more r l w) e

  -- no candles are copied into the ref
  pub with_none-IsEmpty :
      (points : List OhlcvPoint) (w : World)
      → points ≡ []
      → IsEmpty api start w
      → IsEmpty api start (with_candles points w)
  with_none-IsEmpty points w e h = record {
    chart = record {
      candles_same = h.chart.candles_same;
      volumes_same = h.chart.volumes_same;
      ready_there = h.chart.ready_there;
      synced = h.chart.synced;
      no_candles = e;
      shows_none = h.chart.shows_none;
    };
    no_more = h.no_more;
    one_history = h.one_history;
    asked = h.asked;
  }
