-- ===== src/Views/Page.antt =====
-- What web-app/app/page.tsx renders, without its styling, and the listeners it attaches to it.
use stock_anomoly_detection.Prelude.{ℕ, Bool, List, [], ◌∷◌, map, Option, if◌then◌else◌}
use stock_anomoly_detection.Prelude.Int.{ℤ}
use stock_anomoly_detection.Text.{Text, codes}
use stock_anomoly_detection.Dashboard.{Stock, Dashboard}
use stock_anomoly_detection.Dashboard.Search.{shown_results}
use stock_anomoly_detection.Chart.Session.{PriceChart}
use stock_anomoly_detection.Views.Chart as ChartView
use stock_anomoly_detection.Views.Lists.{StockRow, Row, Shown, stock_list, alarm_log, ai_signal_log}

-- What a click in the page's header does; `subscribe_to` is `handleSubscribe(result.ticker)`.
pub data Action : Type 0 where
  subscribe_to : Text → Action
  go_to : Text → Action
  log_out : Action

pub record Choice : Type 0 where
  pub title : Text
  pub detail : Text
  pub on_click : Action

-- a button of the search results
abbrev pub choice : Stock → Choice
choice result = record {
  title = result.name;
  detail = result.ticker;
  on_click = subscribe_to result.ticker;
}

-- the menu behind the gear
abbrev pub settings_menu : List Choice
settings_menu =
    record { title = codes "프로필 설정"; detail = []; on_click = go_to (codes "/settings/profile") }
    ∷ record { title = codes "로그아웃"; detail = []; on_click = log_out }
    ∷ []

pub data Tab : Type 0 where
  alarms ai_signals : Tab

-- The page: the screen shown while the token is checked, or the dashboard.
pub data Page : Type 0 where
  checking : Page
  dashboard :
      (query : Text)
      → (results menu : List Choice) → (stocks : Shown StockRow) → (chart : Option ChartView.Shown)
      → (log : Shown Row) → Page

-- `number`, `locale` and the others read and spell numbers as in Views/Chart.antt and
-- Views/Lists.antt; `selectedStock` is the chart's prop.
module _ {N : Type 0} (number : Text → Option ℤ) (locale : Text → Text) (is_positive : N → Bool)
    (to_fixed : N → ℕ → Text) (percent : N → N) (time : ℕ → Text) (locale_number : N → Text) where
  -- the open tab: "alarms" at first
  unfoldable pub shown_log : Tab → Dashboard N → Shown Row
  shown_log alarms d = alarm_log is_positive to_fixed percent time locale_number d.alarms
  shown_log ai_signals d =
      ai_signal_log is_positive to_fixed percent time locale_number d.ai_signals

  unfoldable pub render : Tab → PriceChart → Dashboard N → Page
  render tab chart d =
      if d.loading
      then checking
      else dashboard d.new_ticker (map choice (shown_results d)) settings_menu
          (stock_list number locale d.selected_stock d.stocks)
          (ChartView.render number locale d.selected_stock chart) (shown_log tab d)
