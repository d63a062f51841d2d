-- ===== src/Subscriptions/Stale.antt =====
-- `subscribe` of SubscriptionService.java evicts the cached tickers before its transaction is committed.
use stock_anomoly_detection.Prelude.{
  ℕ, ◌≡◌, refl, sym, ap, ◌∙◌, false, List, [], ◌∷◌, ◌++◌, Option, none, some, All,
}
use stock_anomoly_detection.Text.{Text}
use stock_anomoly_detection.Dashboard.Server.{tickers_of}
use stock_anomoly_detection.Subscriptions.{
  User, Quote, Backend, find, save, saved, exists_by_user_and_ticker, name_of, subscribe, commit,
  get_subscriptions, tickers_by_user,
}
use stock_anomoly_detection.Subscriptions.Cache.{IsPlain, find-saved}
use stock_anomoly_detection.Subscriptions.Served.{tickers, inserted, commit-inserted, subscribe_lem}
use stock_anomoly_detection.Subscriptions.Rows.{put-same, tickers-append, tickers-response}

module _ (user : User) where
  get-miss :
      (b : Backend)
      → find (b.cache user.id) ≡ none
      → (get_subscriptions user.id b).0 ≡ save user.id (tickers user b) b
  unfolding get_subscriptions
  get-miss b e = rw e refl

  get-hit :
      (b : Backend) (l : List Text)
      → find (b.cache user.id) ≡ some l
      → ((get_subscriptions user.id b).0 ≡ b) × (tickers_of (get_subscriptions user.id b).1 ≡ l)
  unfolding get_subscriptions
  get-hit b l e = rw e (refl, tickers-response b l)

  -- Where the list is asked for while a subscription waits for its commit, and the user has other
  -- tickers, the cache takes the old list: after the commit the new ticker is in the database, but the
  -- answer to a request for the list lacks it, and so again after that request.
  pub stale_cache :
      (quote : Option Quote) (now : ℕ) (t u : Text) (us : List Text) (b : Backend)
      → exists_by_user_and_ticker user.id t b.rows ≡ false
      → tickers user b ≡ u ∷ us
      → All IsPlain (u ∷ us)
      → (let work = subscribe user t quote now b in
          let done = commit work.1 (get_subscriptions user.id work.0).0 in
          (tickers user done ≡ tickers user b ++ t ∷ [])
          × (tickers_of (get_subscriptions user.id done).1 ≡ tickers user b)
          × ((get_subscriptions user.id done).0 ≡ done))
  unfolding find save
  stale_cache quote now t u us b new e plain =
      let work = subscribe user t quote now b in
      let (rows, cache, writes) = subscribe_lem user quote now t b new in
      let none_cached : work.0.cache user.id ≡ none =
        ap (λ f. f user.id) cache ∙ put-same user.id none b.cache in
      let missed = get-miss work.0 (ap find none_cached) in
      let seen = (get_subscriptions user.id work.0).0 in
      let c = commit-inserted user (name_of t b.stocks) t seen in
      let same : tickers user work.0 ≡ tickers user b = ap (tickers_by_user user.id) rows in
      let kept : seen.cache user.id ≡ saved (u ∷ us) =
        ap (λ s. s.cache user.id) missed
        ∙ (put-same user.id (saved (tickers user work.0)) work.0.cache ∙ ap saved (same ∙ e)) in
      let hit =
        get-hit (commit (inserted user (name_of t b.stocks) t) seen) (u ∷ us)
          (ap (λ f. find (f user.id)) c.1 ∙ (ap find kept ∙ find-saved u us plain)) in
      rw writes (
        ap (tickers_by_user user.id) c.0
            ∙ (tickers-append user.id t seen.rows
                ∙ ap (λ l. l ++ t ∷ []) (ap (λ s. tickers user s) missed ∙ same)),
        hit.1 ∙ sym e,
        hit.0,
      )
