-- ===== src/Api.antt =====
-- The addresses that the pages of web-app/ ask: lib/api.ts, and the texts put together in app/page.tsx
-- and components/dashboard/price-chart.tsx.
pub mod Reading
pub mod Queries
use stock_anomoly_detection.Prelude.{List, [], ◌∷◌, ◌++◌, Option, none, some}
use stock_anomoly_detection.Text.{Text, codes}
use stock_anomoly_detection.Chart.{Interval, minute, day, week, month}

-- `process.env.NEXT_PUBLIC_API_BASE_URL ?? "http://localhost:8080"`
unfoldable pub api_base_url : Option Text → Text
api_base_url none = codes "http://localhost:8080"
api_base_url (some url) = url

abbrev pub interval_text : Interval → Text
interval_text minute = codes "1m"
interval_text day = codes "1d"
interval_text week = codes "1w"
interval_text month = codes "1M"

unfoldable pub subscriptions_url : Text → Text
subscriptions_url base = base ++ codes "/api/v1/subscriptions"

unfoldable pub search_url : Text → Text → Text
search_url base new_ticker = base ++ (codes "/api/v1/stocks/search?query=" ++ new_ticker)

unfoldable pub stream_url : Text → Text → Text
stream_url base raw_token = base ++ (codes "/api/v1/sse/subscribe?token=" ++ raw_token)

unfoldable pub unsubscribe_url : Text → Text → Text
unsubscribe_url base ticker = base ++ (codes "/api/v1/subscriptions/" ++ ticker)

unfoldable pub history_url : Text → Text → Interval → Text
history_url base ticker interval =
    base
    ++ (codes "/api/v1/stocks/"
        ++ (ticker ++ (codes "/ohlcv?interval=" ++ (interval_text interval ++ codes "&days=500"))))

unfoldable pub more_url : Text → Text → Interval → Text → Text
more_url base ticker interval end_date =
    base
    ++ (codes "/api/v1/stocks/"
        ++ (ticker
            ++ (codes "/ohlcv?interval="
                ++ (interval_text interval ++ (codes "&days=200&endDate=" ++ end_date)))))
