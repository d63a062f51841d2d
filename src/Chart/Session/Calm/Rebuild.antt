-- ===== src/Chart/Session/Calm/Rebuild.antt =====
-- A chosen stock or interval leaves an empty chart.
use stock_anomoly_detection.Prelude.{
  ◌≡◌, ◌≢◌, refl, sym, ap, ◌∙◌, Bool, true, false, [], ◌∷◌, ◌++◌, Option, none, some, arith,
  if_cases, not, if◌then◌else◌,
}
use stock_anomoly_detection.Text.{Text}
use stock_anomoly_detection.Chart.Series.{create_chart, set_candles, set_volumes}
use stock_anomoly_detection.Chart.Display.{CandlestickSeries, perform, perform_all}
use stock_anomoly_detection.Chart.Session.{
  PriceChart, push, push_all, clean_up, sync_interval, initialize_chart,
}
use stock_anomoly_detection.Chart.Session.Handlers.{HistoryRequest, load_history, clear_series}
use stock_anomoly_detection.Chart.Session.Steps.{is_some, rebuild}
use stock_anomoly_detection.Chart.Session.Live.{displayed}
use stock_anomoly_detection.Chart.Session.Live.Handlers.{displayed-push_all}
use stock_anomoly_detection.Chart.Session.Calm.{IsBlank}

-- no chart is there
record IsGone (c : PriceChart) : Type 0 where
  no_chart : c.chart_api ≡ false
  no_candles : c.candle_series ≡ false
  no_volumes : c.volume_series ≡ false
  not_ready : c.is_chart_ready ≡ false
  no_points : c.ohlcv_data_ref ≡ []

-- A chart whose refs agree, and that has candles in its ref only if it is there.
pub record IsWhole (c : PriceChart) : Type 0 where
  pub candles_same : c.candle_series ≡ c.chart_api
  pub volumes_same : c.volume_series ≡ c.chart_api
  pub ready_there : c.is_chart_ready ≡ true → c.chart_api ≡ true
  pub no_points : c.chart_api ≡ false → c.ohlcv_data_ref ≡ []

clean_up-IsGone : (c : PriceChart) → IsWhole c → IsGone (clean_up c)
unfolding clean_up push
clean_up-IsGone c h =
    if_cases IsGone c.chart_api
      (λ there. record {
        no_chart = refl;
        no_candles = refl;
        no_volumes = refl;
        not_ready = refl;
        no_points = refl;
      })
      (λ gone. record {
        no_chart = gone;
        no_candles = h.candles_same ∙ gone;
        no_volumes = h.volumes_same ∙ gone;
        not_ready = let r = h.ready_there in ground arith;
        no_points = h.no_points gone;
      })

module _ (api : CandlestickSeries) (start : api.Series) where
  initialize_chart-IsBlank :
      (b : Bool) (c : PriceChart)
      → IsGone c
      → IsBlank api start (initialize_chart b (sync_interval c))
  unfolding initialize_chart sync_interval push
  initialize_chart-IsBlank true c h = record {
    candles_same = refl;
    volumes_same = refl;
    ready_there = λ _. refl;
    synced = λ _. refl;
    no_candles = h.no_points;
    shows_none = λ _. shows_none_of_create;
  }
    where
      shows_none_of_create :
          api.shown (displayed api c.interval start (push_all (create_chart ∷ []) c.calls)) ≡ []
      shows_none_of_create =
          ap api.shown (displayed-push_all api c.interval start (create_chart ∷ []) c.calls)
          ∙ (unfold perform_all perform in
              api.shown-set_data [] (displayed api c.interval start c.calls))
  initialize_chart-IsBlank false c h = record {
    candles_same = h.no_candles ∙ sym h.no_chart;
    volumes_same = h.no_volumes ∙ sym h.no_chart;
    ready_there = λ r. absurd (let n = h.not_ready in ground arith);
    synced = λ there. absurd (let n = h.no_chart in ground arith);
    no_candles = h.no_points;
    shows_none = λ there. absurd (let n = h.no_chart in ground arith);
  }

  clear_series-IsBlank : (c : PriceChart) → IsBlank api start c → IsBlank api start (clear_series c)
  unfolding clear_series push
  clear_series-IsBlank c h = record {
    candles_same = h.candles_same;
    volumes_same = h.volumes_same;
    ready_there = h.ready_there;
    synced = h.synced;
    no_candles = h.no_candles;
    shows_none = λ there.
        cleared c.candle_series c.volume_series (h.candles_same ∙ there) (h.volumes_same ∙ there);
  }
    where
      cleared :
          (a b : Bool)
          → a ≡ true
          → b ≡ true
          → api.shown (
              displayed api c.interval start (
                push_all
                  ((if a then set_candles [] ∷ [] else [])
                    ++ (if b then set_volumes [] ∷ [] else []))
                  c.calls))
            ≡ []
      cleared true true e f =
          ap api.shown
            (displayed-push_all api c.interval start (set_candles [] ∷ set_volumes [] ∷ []) c.calls)
          ∙ (unfold perform_all perform in
              api.shown-set_data [] (displayed api c.interval start c.calls))
      cleared true false e f = cc
      cleared false b e f = cc

  -- the second effect leaves the chart empty, and asks for a history of a chart that is there
  pub load_history-IsBlank :
      (o : Option Text) (ready : Bool) (c : PriceChart)
      → IsBlank api start c
      → IsBlank api start (load_history o ready c).0
  unfolding load_history
  load_history-IsBlank none ready c h =
      clear_series-IsBlank (record c { is_history_loaded = false; ohlcv_data = [] }) h
  load_history-IsBlank (some t) ready c h =
      if_cases (λ (r : PriceChart × Option HistoryRequest). IsBlank api start r.0) (not ready)
        (λ _. h) (λ _. h)

  -- The first two effects, after the cleanup.
  pub rebuild-IsBlank :
      (o : Option Text) (ready : Bool) (c : PriceChart)
      → IsWhole c
      → IsBlank api start (rebuild o ready c).0
  unfolding rebuild
  rebuild-IsBlank o ready c h =
      load_history-IsBlank o ready (initialize_chart (is_some o) (sync_interval (clean_up c)))
        (initialize_chart-IsBlank (is_some o) (clean_up c) (clean_up-IsGone c h))

-- a history is asked for a chart that is there
pub load_history-asked :
    (o : Option Text) (ready : Bool) (c : PriceChart)
    → (ready ≡ true → c.chart_api ≡ true)
    → (load_history o ready c).1 ≢ none
    → (load_history o ready c).0.chart_api ≡ true
unfolding load_history
load_history-asked none ready c h n = absurd (n refl)
load_history-asked (some t) true c h n = h refl
load_history-asked (some t) false c h n = absurd (n refl)

pub rebuild-asked :
    (o : Option Text) (ready : Bool) (c : PriceChart)
    → (rebuild o ready c).1 ≢ none
    → (rebuild o ready c).0.chart_api ≡ true
unfolding rebuild load_history initialize_chart push
rebuild-asked none ready c n = absurd (n refl)
rebuild-asked (some t) true c n = refl
rebuild-asked (some t) false c n = refl
