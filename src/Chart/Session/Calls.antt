-- ===== src/Chart/Session/Calls.antt =====
-- The calls of the chart library that the component makes, and on which chart.
use stock_anomoly_detection.Prelude.{
  ℕ, ◌≡◌, refl, Bool, true, false, ◌&&◌, List, [], ◌∷◌, ◌++◌, if◌then◌else◌, inl, inr, All,
  All-append, Option-cases, last, sym, ◌∙◌,
}
use stock_anomoly_detection.Chart.{OhlcvPoint, Interval, is_daily, epoch, key_lt, key_eq}
use stock_anomoly_detection.Chart.Series.{
  ChartCall, Candle, set_candles, set_volumes, update_candle, fit_content, create_chart,
  remove_chart, update_chart_data,
}
use stock_anomoly_detection.Chart.Ticks.{
  PendingTick, apply_ticks, tick_update, tick_after, last_time_key, tick_key, truthy, set_last,
  merge_tick, new_candle, candle_at,
}
use stock_anomoly_detection.Chart.Session.{PriceChart, push, push_all}

-- whether a chart is there, from the calls so far, the latest in front
abbrev pub alive : List ChartCall → Bool
alive [] = false
alive (create_chart ∷ log) = true
alive (remove_chart ∷ log) = false
alive (set_candles bars ∷ log) = alive log
alive (set_volumes bars ∷ log) = alive log
alive (update_candle c ∷ log) = alive log
alive (fit_content ∷ log) = alive log

-- a chart is made when none is there; every other call is made on one that is
abbrev pub needed : ChartCall → Bool
needed create_chart = false
needed remove_chart = true
needed (set_candles bars) = true
needed (set_volumes bars) = true
needed (update_candle c) = true
needed fit_content = true

abbrev pub IsSafe : List ChartCall → Type 0
IsSafe [] = Unit
IsSafe (c ∷ log) = (alive log ≡ needed c) × IsSafe log

-- The refs hold objects of the chart that is there, and no call was made on a chart that is gone.
pub record IsUsable (s : PriceChart) : Type 0 where
  pub api : s.chart_api ≡ alive s.calls
  pub candles : s.candle_series ≡ alive s.calls
  pub volumes : s.volume_series ≡ alive s.calls
  pub safe : IsSafe s.calls

-- calls that show data: they want a chart and leave it there
abbrev IsShowing : ChartCall → Type 0
IsShowing c = (log : List ChartCall) → (needed c ≡ true) × (alive (c ∷ log) ≡ alive log)

pub push-IsUsable :
    (cs : List ChartCall) (s : PriceChart)
    → alive s.calls ≡ true
    → All IsShowing cs
    → IsUsable s
    → IsUsable (push cs s)
unfolding push push_all
push-IsUsable [] s there h u = u
push-IsUsable (c ∷ cs) s there h u =
    let (wants, stays) = h.0 s.calls in
    push-IsUsable cs (record s { calls = c ∷ s.calls }) (stays ∙ there) h.1
      (record {
        api = u.api ∙ sym stays;
        candles = u.candles ∙ sym stays;
        volumes = u.volumes ∙ sym stays;
        safe = (there ∙ sym wants, u.safe);
      })

abbrev Outcome : Type 0
Outcome = List OhlcvPoint × List ChartCall

abbrev ShowsOnly : Outcome → Type 0
ShowsOnly r = All IsShowing r.1

three-IsShowing :
    (a b : Bool) (x y z : List OhlcvPoint) (c d : Candle)
    → ShowsOnly
        (if a then (x, []) else if b then (y, update_candle c ∷ []) else (z, update_candle d ∷ []))
three-IsShowing true b x y z c d = tt
three-IsShowing false true x y z c d = (λ log. (refl, refl), tt)
three-IsShowing false false x y z c d = (λ log. (refl, refl), tt)

tick_after-IsShowing :
    (i : Interval) (price timestamp : ℕ) (m : List OhlcvPoint) (p : OhlcvPoint)
    → ShowsOnly (tick_after i price timestamp m p)
unfolding tick_after
tick_after-IsShowing i price timestamp m p =
    let key = last_time_key i p in
    let now = tick_key i timestamp in
    three-IsShowing (truthy key && key_lt now key) (key_eq key now) m
      (set_last (merge_tick price p) m) (m ++ new_candle i price timestamp ∷ [])
      (candle_at (if is_daily i then key else epoch p.time) (merge_tick price p))
      (candle_at now (new_candle i price timestamp))

tick_update-IsShowing :
    (i : Interval) (price timestamp : ℕ) (m : List OhlcvPoint)
    → All IsShowing (tick_update i price timestamp m).1
unfolding tick_update
tick_update-IsShowing i price timestamp m = elim (Option-cases (last m)) [
  | inl e ↦ rw (e, tick_update) (λ log. (refl, refl), tt)
  | inr (p, e) ↦ rw (e, tick_update) (tick_after-IsShowing i price timestamp m p)
]

pub apply_ticks-IsShowing :
    (i : Interval) (ts : List PendingTick) (m : List OhlcvPoint)
    → All IsShowing (apply_ticks i ts m).1
unfolding apply_ticks
apply_ticks-IsShowing i [] m = tt
apply_ticks-IsShowing i (t ∷ ts) m =
    All-append IsShowing _ _ (tick_update-IsShowing i t.price t.timestamp m)
      (apply_ticks-IsShowing i ts (tick_update i t.price t.timestamp m).0)

abbrev pub Showing : List ChartCall → Type 0
Showing cs = All IsShowing cs

pub update_chart_data-IsShowing :
    (a b : Bool) (i : Interval) (m : List OhlcvPoint) → Showing (update_chart_data a b i m)
unfolding update_chart_data
update_chart_data-IsShowing true true i m = (λ log. (refl, refl), (λ log. (refl, refl), tt))
update_chart_data-IsShowing true false i m = tt
update_chart_data-IsShowing false b i m = tt
