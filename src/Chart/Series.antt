-- ===== src/Chart/Series.antt =====
-- `updateChartData` of price-chart.tsx. The chart library is not part of the program: a call of it
-- is a value of `ChartCall`, and an exception that it throws is only logged by the program.
pub mod Order
pub mod Unordered
use stock_anomoly_detection.Prelude.{
  ℕ, ◌≡◌, refl, Bool, true, false, not, ◌||◌, List, [], ◌∷◌, map, leb, if◌then◌else◌,
}
use stock_anomoly_detection.Text.{codes}
use stock_anomoly_detection.Keyed.{map_set_all, values, sort_by}
use stock_anomoly_detection.Chart.{
  OhlcvPoint, Interval, minute, day, is_daily, TimeKey, date_string, epoch, key_eq,
  get_kst_date_string,
}

pub record Bar : Type 0 where
  pub time : TimeKey
  pub opening : ℕ
  pub high : ℕ
  pub low : ℕ
  pub close : ℕ
  pub volume : ℕ

-- the two translucent colours, for a bar that closes at or above its opening, and below
pub data Color : Type 0 where
  green red : Color

pub record VolumeBar : Type 0 where
  pub time : TimeKey
  pub value : ℕ
  pub color : Color

pub record Candle : Type 0 where
  pub time : TimeKey
  pub opening : ℕ
  pub high : ℕ
  pub low : ℕ
  pub close : ℕ

-- what the program asks the chart library to do
pub data ChartCall : Type 0 where
  set_candles : List Bar → ChartCall
  set_volumes : List VolumeBar → ChartCall
  update_candle : Candle → ChartCall
  fit_content : ChartCall
  create_chart : ChartCall
  remove_chart : ChartCall

unfoldable pub chart_key : Interval → ℕ → TimeKey
chart_key i time = if is_daily i then date_string (get_kst_date_string time) else epoch time

unfoldable pub to_bar : Interval → OhlcvPoint → Bar
to_bar i d = record {
  time = chart_key i d.time;
  opening = d.opening;
  high = d.high;
  low = d.low;
  close = d.close;
  volume = d.volume;
}

unfoldable pub to_volume_bar : Bar → VolumeBar
to_volume_bar d = record {
  time = d.time;
  value = d.volume;
  color = if leb d.opening d.close then green else red;
}

-- `finalData`
unfoldable pub final_data : Interval → List OhlcvPoint → List Bar
final_data i points = values (
    map_set_all key_eq (λ d. chart_key i d.time) (to_bar i) []
      (sort_by (λ (p : OhlcvPoint). p.time) points))

-- `updateChartData`, given whether the two series are there
unfoldable pub update_chart_data : Bool → Bool → Interval → List OhlcvPoint → List ChartCall
update_chart_data candle_series volume_series i points =
    if not candle_series || not volume_series
    then []
    else set_candles (final_data i points)
      ∷ set_volumes (map to_volume_bar (final_data i points))
      ∷ []

abbrev pub flat : ℕ → ℕ → OhlcvPoint
flat t p = record { time = t; opening = p; high = p; low = p; close = p; volume = 0 }

-- two points of one day in Seoul give one bar, the later point's
same_day :
    final_data day (flat 1767198600 7 ∷ flat 1767195000 5 ∷ [])
    ≡ record {
      time = date_string (codes "2026-01-01");
      opening = 7;
      high = 7;
      low = 7;
      close = 7;
      volume = 0;
    }
      ∷ []
unfolding final_data sort_by map_set_all to_bar key_eq chart_key get_kst_date_string
same_day = refl
