-- ===== src/Views/Chart.antt =====
-- What price-chart.tsx renders, without its styling: the header with the change of price, the
-- legend and the status line. `number` is `Number(text)`, none for NaN.
use stock_anomoly_detection.Prelude.{
  ◌≡◌, ◌≢◌, ◌↔◌, ◌⊎◌, Bool, true, false, not, ◌||◌, List, [], ◌∷◌, Option, none, some, length, last,
  leb, ◌==◌, if◌then◌else◌, arith,
}
use stock_anomoly_detection.Prelude.Int.{ℤ, pos, ltb_ℤ}
use stock_anomoly_detection.Text.{Text, codes}
use stock_anomoly_detection.Chart.{OhlcvPoint, Interval}
use stock_anomoly_detection.Chart.Session.{PriceChart, Legend}
use stock_anomoly_detection.Dashboard.{Stock}

-- `s.replace("%", "")`: the first one only
unfoldable pub remove_percent : Text → Text
remove_percent [] = []
remove_percent (c ∷ s) = if c == b'%' then s else c ∷ remove_percent s

abbrev pub or_zero : Option ℤ → ℤ
or_zero none = pos 0
or_zero (some n) = n

pub record PriceChange : Type 0 where
  pub value : ℤ
  pub percent : ℤ

abbrev pub field_or : Option Stock → (Stock → Text) → Text → Text
field_or none f d = d
field_or (some s) f d = f s

-- `priceChange`; `number` ignores spaces at both ends, so `trim` adds nothing
unfoldable pub price_change : (Text → Option ℤ) → Option Stock → PriceChange
price_change number selected = record {
  percent = or_zero (number (remove_percent (field_or selected (λ s. s.change) (codes "0"))));
  value = or_zero (number (field_or selected (λ s. s.change_amount) (codes "0")));
}

-- `priceChange.value >= 0`: the colour, the arrow and the plus sign
abbrev pub is_up : PriceChange → Bool
is_up c = not (ltb_ℤ c.value (pos 0))

pub record Header : Type 0 where
  pub name : Text
  pub ticker : Text
  pub price : Text
  pub active : Interval
  pub up : Bool
  pub change : PriceChange

-- A legend with its colour: none without a candle under the crosshair.
pub record ShownLegend : Type 0 where
  pub candle : Legend
  pub up : Option Bool

abbrev pub last_candle : Option OhlcvPoint → Option ShownLegend
last_candle none = none
last_candle (some p) = some (record {
  candle = record { opening = p.opening; high = p.high; low = p.low; close = p.close };
  up = none;
})

-- the legend over the chart: the candle under the crosshair, else the last one
unfoldable pub shown_legend : Option Legend → List OhlcvPoint → Option ShownLegend
shown_legend none points = last_candle (last points)
shown_legend (some l) points = some (record { candle = l; up = some (leb l.opening l.close) })

pub data Status : Type 0 where
  loading_more loading no_data streaming : Status

unfoldable pub status : PriceChart → Status
status c =
    if c.is_loading_more
    then loading_more
    else if not c.is_history_loaded
    then loading
    else if length c.ohlcv_data == 0
    then no_data
    else streaming

pub record Shown : Type 0 where
  pub header : Header
  pub legend : Option ShownLegend
  pub status : Status
  pub pulsing : Bool

-- What is rendered around the chart: none is the note to select a stock. `locale` is the price's
-- `parseFloat(price).toLocaleString("ko-KR")`.
unfoldable pub render : (Text → Option ℤ) → (Text → Text) → Option Stock → PriceChart → Option Shown
render number locale none c = none
render number locale (some s) c =
    let change = price_change number (some s) in
    some (record {
      header = record {
        name = s.name;
        ticker = s.ticker;
        price = locale s.price;
        active = c.interval;
        up = is_up change;
        change = change;
      };
      legend = shown_legend c.legend_data c.ohlcv_data;
      status = status c;
      pulsing = c.is_loading_more || not c.is_history_loaded;
    })

-- The status line says that data streams exactly when the history is loaded, nothing older is on
-- its way and there are candles; and its icon pulses exactly when something is being loaded.
pub status_lem :
    (c : PriceChart)
    → ((status c ≡ streaming)
        ↔ ((c.is_loading_more ≡ false) × (c.is_history_loaded ≡ true) × (c.ohlcv_data ≢ [])))
      × (((c.is_loading_more || not c.is_history_loaded) ≡ true)
          ↔ ((status c ≡ loading_more) ⊎ (status c ≡ loading)))
unfolding status
status_lem c = ground arith
