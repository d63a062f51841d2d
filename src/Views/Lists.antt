-- ===== src/Views/Lists.antt =====
-- What the lists of the dashboard render, without their styling: components/dashboard/stock-list.tsx,
-- alarm-log.tsx and ai-signal-log.tsx. `N` is JavaScript's numbers as JSON brings them, with their
-- tests and their spelling as parameters.
use stock_anomoly_detection.Prelude.{
  ℕ, Bool, true, false, not, List, [], ◌∷◌, ◌++◌, map, Option, none, some, length, if◌then◌else◌,
}
use stock_anomoly_detection.Prelude.Int.{ℤ, pos, ltb_ℤ}
use stock_anomoly_detection.Text.{Text, codes, text_eq}
use stock_anomoly_detection.Dashboard.{
  Stock, Severity, high, medium, low, Direction, buy_ready, sell_ready, neutral, AlarmEntry,
  AiSignalEntry,
}

-- A list with its number of entries: without entries a note stands for it.
pub data Shown (A : Type 0) : Type 0 where
  nothing_yet : Shown A
  entries : ℕ → List A → Shown A

unfoldable pub show_list : {A B : Type 0} → (A → B) → List A → Shown B
show_list f [] = nothing_yet
show_list f (a ∷ rest) = entries (length (a ∷ rest)) (map f (a ∷ rest))

-- One button of `StockList`.
pub record StockRow : Type 0 where
  pub name : Text
  pub ticker : Text
  pub price : Text
  pub change : Text
  pub selected : Bool
  pub anomaly : Bool
  pub up : Bool

-- `selectedStock?.id === stock.id`
abbrev pub is_selected : Option Stock → Stock → Bool
is_selected none stock = false
is_selected (some s) stock = text_eq s.id stock.id

-- `Number(text) >= 0`, which is false for NaN
abbrev pub is_up : Option ℤ → Bool
is_up none = false
is_up (some n) = not (ltb_ℤ n (pos 0))

-- `number` is `Number(text)`, and `locale` is its `toLocaleString("ko-KR")`
unfoldable pub stock_row : (Text → Option ℤ) → (Text → Text) → Option Stock → Stock → StockRow
stock_row number locale selected stock = record {
  name = stock.name;
  ticker = stock.ticker;
  price = locale stock.price;
  change = stock.change;
  selected = is_selected selected stock;
  anomaly = text_eq stock.status (codes "anomaly");
  up = is_up (number stock.change_amount);
}

unfoldable pub stock_list :
    (Text → Option ℤ) → (Text → Text) → Option Stock → List Stock → Shown StockRow
stock_list number locale selected stocks = show_list (stock_row number locale selected) stocks

pub data Icon : Type 0 where
  zap trending_up trending_down activity minus : Icon

-- `getIcon` of alarm-log.tsx
unfoldable pub alarm_icon : Severity → Icon
alarm_icon high = zap
alarm_icon medium = trending_up
alarm_icon low = activity

-- The colours that `severityConfig` and `directionConfig` name.
pub data Colour : Type 0 where
  chart_1 chart_2 chart_3 chart_4 muted : Colour

unfoldable pub severity_config : Severity → Colour
severity_config high = chart_2
severity_config medium = chart_4
severity_config low = chart_3

module _ {N : Type 0} (is_positive : N → Bool) (to_fixed : N → ℕ → Text) where
  -- `${pct > 0 ? "+" : ""}${pct.toFixed(2)}%`
  abbrev pub signed : N → Text
  signed pct = (if is_positive pct then codes "+" else []) ++ to_fixed pct 2 ++ codes "%"

  unfoldable pub get_message : AlarmEntry N → Text
  get_message alarm = message alarm.severity
    where
      message : Severity → Text
      message high =
          codes "강한 이상 신호 — Z-Score: "
          ++ to_fixed alarm.zscore 2
          ++ codes ", 가격변동: "
          ++ signed alarm.price_change_pct
      message medium =
          codes "거래량+가격 이상 — Z-Score: "
          ++ to_fixed alarm.zscore 2
          ++ codes ", 가격변동: "
          ++ signed alarm.price_change_pct
      message low = codes "거래량 이상 감지 — Z-Score: " ++ to_fixed alarm.zscore 2

-- One entry of `AlarmLog` or `AiSignalLog`; the first one of a list slides in.
pub record Row : Type 0 where
  pub time : Text
  pub ticker : Text
  pub amount : Text
  pub message : Text
  pub badge : Text
  pub icon : Icon
  pub colour : Colour
  pub first : Bool

-- `map((entry, index) => ...)` where only `index === 0` matters
abbrev pub first_marked : {A B : Type 0} → (Bool → A → B) → List A → List B
first_marked f [] = []
first_marked f (a ∷ rest) = f true a ∷ map (f false) rest

abbrev pub show_log : {A B : Type 0} → (Bool → A → B) → List A → Shown B
show_log f [] = nothing_yet
show_log f (a ∷ rest) = entries (length (a ∷ rest)) (first_marked f (a ∷ rest))

unfoldable pub severity_text : Severity → Text
severity_text high = codes "HIGH"
severity_text medium = codes "MEDIUM"
severity_text low = codes "LOW"

-- `getIcon` of ai-signal-log.tsx
unfoldable pub signal_icon : Direction → Icon
signal_icon buy_ready = trending_up
signal_icon sell_ready = trending_down
signal_icon neutral = minus

pub record DirectionConfig : Type 0 where
  pub label : Text
  pub colour : Colour

unfoldable pub direction_config : Direction → DirectionConfig
direction_config buy_ready = record { label = codes "매수 신호"; colour = chart_1 }
direction_config sell_ready = record { label = codes "매도 신호"; colour = chart_2 }
direction_config neutral = record { label = codes "중립"; colour = muted }

-- `time` is `toLocaleTimeString("ko-KR", ...)`, `locale` is `toLocaleString()`, `to_fixed` is
-- `toFixed`, and `percent n` is `n * 100`.
module _ {N : Type 0} (is_positive : N → Bool) (to_fixed : N → ℕ → Text) (percent : N → N)
    (time : ℕ → Text) (locale : N → Text) where
  unfoldable pub alarm_row : Bool → AlarmEntry N → Row
  alarm_row first alarm = record {
    time = time alarm.timestamp;
    ticker = codes "[" ++ alarm.ticker ++ codes "]";
    amount = codes "₩" ++ locale alarm.current_price;
    message = get_message is_positive to_fixed alarm;
    badge = severity_text alarm.severity;
    icon = alarm_icon alarm.severity;
    colour = severity_config alarm.severity;
    first = first;
  }

  unfoldable pub alarm_log : List (AlarmEntry N) → Shown Row
  alarm_log alarms = show_log alarm_row alarms

  unfoldable pub signal_message : AiSignalEntry N → Text
  signal_message signal =
      (direction_config signal.direction).label
      ++ codes " — 상승 "
      ++ to_fixed (percent signal.bull_probability) 1
      ++ codes "% / 하락 "
      ++ to_fixed (percent signal.bear_probability) 1
      ++ codes "%"

  unfoldable pub signal_row : Bool → AiSignalEntry N → Row
  signal_row first signal = record {
    time = time signal.timestamp;
    ticker = codes "[" ++ signal.ticker ++ codes "]";
    amount = codes "₩" ++ locale signal.close;
    message = signal_message signal;
    badge = to_fixed (percent signal.bull_probability) 0 ++ codes "%";
    icon = signal_icon signal.direction;
    colour = (direction_config signal.direction).colour;
    first = first;
  }

  unfoldable pub ai_signal_log : List (AiSignalEntry N) → Shown Row
  ai_signal_log signals = show_log signal_row signals
