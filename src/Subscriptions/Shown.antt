-- ===== src/Subscriptions/Shown.antt =====
-- web-app/app/page.tsx and SubscriptionController.java together.
use stock_anomoly_detection.Prelude.{ℕ, ◌≤◌, ◌≡◌, List, [], ◌∷◌, Option, some}
use stock_anomoly_detection.Text.{Text}
use stock_anomoly_detection.Dashboard.{Item, Answer}
use stock_anomoly_detection.Dashboard.Server.{Action, AreOrdered, shown, go_all, drained, open_page}
use stock_anomoly_detection.Dashboard.Server.Draining.{answers_due, watching_lem}
use stock_anomoly_detection.Subscriptions.{User, Quote, Backend, tickers_by_user}
use stock_anomoly_detection.Subscriptions.Cache.{IsSafe}
use stock_anomoly_detection.Subscriptions.Served.{IsCoherent, subscription_server}

module _ {N : Type 0} (to_text : N → Text) (user : User) (quotes : Text → Option Quote) (now : ℕ)
    (searches : Text → Answer (List Item)) (read_path : Text → Option Text)
    (reads : (t : Text) → IsSafe t → read_path t ≡ some t) where
  -- The page is opened with a token, on a server whose cache agrees with its database, and whose
  -- framework reads digits and capital letters in a path as they are. The user, the timer and the
  -- event stream then do anything, any number of requests being on their way, but only tickers of
  -- ten digits and capital letters at most are added or removed, the server handles the requests
  -- in their order, and the answers to all but the searches arrive in that order. When the answers
  -- that are due have arrived, nothing is on its way, and the watch list has the tickers that the
  -- user has in the database, in their order, also where removals have failed since the user has no
  -- KIS key.
  pub page_shows_rows :
      (c : ℕ) (token : Text) (actions : List (Action N)) (b : Backend) (n : ℕ)
      → IsCoherent user.id b
      → (let server = subscription_server user quotes now searches read_path reads in
          AreOrdered to_text server actions (open_page server (c ∷ token) b))
      → (let server = subscription_server user quotes now searches read_path reads in
          answers_due (go_all to_text server actions (open_page server (c ∷ token) b)).page.pending
          ≤ n)
      → (let server = subscription_server user quotes now searches read_path reads in
          let w =
            drained to_text server n
              (go_all to_text server actions (open_page server (c ∷ token) b)) in
          (w.page.pending ≡ []) × (shown w.page ≡ tickers_by_user user.id w.server.rows))
  page_shows_rows c token actions b n sound ordered due =
      watching_lem to_text (subscription_server user quotes now searches read_path reads) c token
        actions b n sound ordered due
