-- ===== src/Lib.antt =====
-- The web application of the stock anomaly detection system, web-app/: a dashboard of watched
-- stocks with a live candlestick chart, alarm and signal logs, the login, signup and profile pages,
-- and the route guard, with the part of its server that keeps the
-- subscriptions and the event streams. Each file models one part and the files below it prove its laws.
--
-- Chart (components/dashboard/price-chart.tsx). Chart.antt has the candles, intervals and time keys
-- (`getKstDateString`); Chart/Series `updateChartData`; Chart/Ticks `applyTick`; Chart/Paging the
-- end date and the merge of `loadMore`. Chart/Session is the component: its state and refs as one
-- record, each effect, cleanup and callback as a function on it, and each `await` as the end of one
-- function and the start of the next, with the request that is on its way kept in between.
-- Chart/Session/Steps is a step for each event, in any order: selections, intervals, renders,
-- scrolling, prices and answers of the server; Chart/Session/ScrollBack a user who scrolls back,
-- Chart/Session/Live a chart between two selections, and Chart/Session/Calm a whole visit in which
-- nothing is chosen while an answer is on its way; Races, Late, Failed and Overwritten are what
-- happens otherwise.
-- Chart/Display is what the chart library shows, with its candlestick series as a parameter that
-- keeps what its documentation says.
-- Dashboard (app/page.tsx and the types of stock-list.tsx, alarm-log.tsx and ai-signal-log.tsx): the
-- page's state, the listeners of the event stream, the search box and the subscriptions.
-- Dashboard/Requests has the search timer and the requests that are on their way, and Dashboard/Server
-- these requests with a server, an interface of operations and laws, that answers them.
-- Subscriptions (api-server, the classes SubscriptionService, SubscriptionController,
-- SubscriptionCacheRedisRepository and StockPriceRedisRepository): the part of the server that
-- implements this interface, its transactions and its cache.
-- Streams (api-server, the class SseService and the receivers of KafkaStockTickConsumer,
-- KafkaAnomalyAlertConsumer and KafkaAiSignalConsumer): the emitters of the users, and who is sent what.
-- App: the page together with its chart, whose effects run when its prop has changed, and
-- App/Visits its whole visit.
-- Auth (app/auth/login/page.tsx, app/auth/signup/page.tsx, the token handling of app/page.tsx and
-- proxy.ts): the browser's storage, cookie and location as a state. Auth/Matcher
-- has the matcher of proxy.ts.
-- Api (lib/api.ts and the texts in page.tsx and price-chart.tsx): the addresses that are asked, and
-- Api/Reading how the parameters in them are read.
-- Profile (app/settings/profile/page.tsx): the page's state, handlers and texts.
-- Views: what the components render as data, without class names and layout.
-- Prelude, Text, Calendar and Keyed hold what the source takes from JavaScript: lists and numbers,
-- strings as lists of code units, dates, and `Map` with `sort`. Tests applies theorems to inputs.
--
-- How the parts meet: the page's selected stock is the chart's prop, so a tick of the event stream
-- becomes a price of the chart; the login writes the token that the page and the guard read; the page's
-- watch list is the server's list of subscriptions. In Subscriptions/Shown the server handles the
-- requests one by one in the order they are made, and their answers arrive in that order, except
-- for those to searches; Dashboard/Requests/Late is what happens otherwise.
--
-- Names are the source's in this language's spelling (`ohlcvDataRef` is `ohlcv_data_ref`; `open` is
-- `opening` or `is_open`). Times are natural numbers, seconds or milliseconds since 1970; prices and
-- volumes are natural numbers in the smallest quoted unit, since the chart only compares and copies
-- them; a visible range is counted in thousandths of a bar. Numbers that are only shown stay
-- abstract, with their spelling (`toFixed`, `toLocaleString`, `String`) as parameters, as do
-- `Number(text)`, `parseFloat`, `encodeURIComponent` and its inverse. The answers of the server are arguments: an
-- exception, an error status, or a body. The calls of the chart library are a log.
--
-- React is taken by its documentation: a changed dependency runs the old cleanup and then the
-- effects in the order of the source; state is read from the render, refs at once; the updaters of
-- a state are applied in order. The events of a run need not be ones that React would produce, so
-- what holds of all runs holds of those.
--
-- Fuel: the digits of n take n + 1 steps at most, and the year of the day d is found after d steps at
-- most, which Text/Decimal and Calendar/Dates show to be enough by the results they prove.
--
-- Not modelled: console output, the resize listener and the chart's options, the addresses without
-- parameters of the login, signup and profile pages, the component kit components/ui and
-- hooks/use-toast.ts (copies of a library), layout.tsx, global-error.tsx and the theme provider
-- (markup), the rest of api-server (signing in, candles, search, start, and the calls of Kafka,
-- InfluxDB and JSON), and the services trading-engine and ai-signal-service. How the web server
-- reads a ticker in the path of an address is a parameter.
pub mod Prelude
pub mod Text
pub mod Calendar
pub mod Chart
pub mod Keyed
pub mod Dashboard
pub mod Auth
pub mod Profile
pub mod Subscriptions
pub mod Streams
pub mod Views
pub mod Api
pub mod App
pub mod Tests
