-- ===== src/Subscriptions/Served.antt =====
-- The requests of SubscriptionController.java, as the server that the dashboard asks.
use mathlib.Core.Path.{subst}
use stock_anomoly_detection.Prelude.{
  ℕ, ◌≡◌, refl, ap, ◌∙◌, false, List, [], ◌∷◌, ◌++◌, Option, none, some, All, All-append,
  Bool-cases, inl, inr,
}
use stock_anomoly_detection.Text.{Text}
use stock_anomoly_detection.Dashboard.{Item, Answer}
use stock_anomoly_detection.Dashboard.Requests.{Request, search, subscriptions, add, remove}
use stock_anomoly_detection.Dashboard.Server.{Server, Tells, IsFit, tickers_of}
use stock_anomoly_detection.Subscriptions.{
  delete_subscription, or_rolled_back, tear_down, end_delete, User, Quote, Write,
  insert_subscription, Backend, find, save, saved, evict, put, tickers_by_user,
  exists_by_user_and_ticker, name_of, new_stock, fetch_initial_price, register_app_key, subscribe,
  unsubscribe, commit, cached_tickers, get_subscriptions, is_blank, post_subscription,
  delete_subscription_request, get_subscriptions_request,
}
use stock_anomoly_detection.Subscriptions.Cache.{IsPlain, IsSafe, safe-IsPlain, find-saved}
use stock_anomoly_detection.Subscriptions.Rows.{
  put-same, tickers-append, tickers-delete, drop-All, tickers-response,
}

-- what is found in the cache, if anything, is what the database has
abbrev pub Finds : Option (List Text) → List Text → Type 0
Finds none l = Unit
Finds (some l') l = l' ≡ l

-- The user's tickers can be kept, and the cache agrees with the database.
pub record IsCoherent (u : ℕ) (b : Backend) : Type 0 where
  pub plain : All IsPlain (tickers_by_user u b.rows)
  pub cached : Finds (find (b.cache u)) (tickers_by_user u b.rows)

Finds-saved : (l : List Text) → All IsPlain l → Finds (find (saved l)) l
unfolding find
Finds-saved [] h = tt
Finds-saved (t ∷ ts) h = rw (find-saved t ts h) refl

module _ (user : User) where
  abbrev pub tickers : Backend → List Text
  tickers b = tickers_by_user user.id b.rows

  -- with an empty cache the rows count alone
  evicted-IsCoherent :
      (b : Backend) → All IsPlain (tickers b) → b.cache user.id ≡ none → IsCoherent user.id b
  unfolding find
  evicted-IsCoherent b h e = record { plain = h; cached = rw e tt }

  abbrev pub inserted : Option Text → Text → List Write
  inserted name t =
      new_stock name t ++ insert_subscription (record { user = user.id; ticker = t }) ∷ []

  pub commit-inserted :
      (name : Option Text) (t : Text) (b : Backend)
      → ((commit (inserted name t) b).rows ≡ b.rows ++ record { user = user.id; ticker = t } ∷ [])
        × ((commit (inserted name t) b).cache ≡ b.cache)
  unfolding commit
  commit-inserted none t b = (refl, refl)
  commit-inserted (some name) t b = (refl, refl)

  register-same :
      (key : Option Text) (b : Backend)
      → ((register_app_key key user.email b).rows ≡ b.rows)
        × ((register_app_key key user.email b).cache ≡ b.cache)
  unfolding register_app_key
  register-same none b = (refl, refl)
  register-same (some key) b = (refl, refl)

  fetch-same :
      (t : Text) (quote : Option Quote) (now : ℕ) (b : Backend)
      → ((fetch_initial_price user t quote now b).rows ≡ b.rows)
        × ((fetch_initial_price user t quote now b).cache ≡ b.cache)
  unfolding fetch_initial_price
  fetch-same t none now b = (refl, refl)
  fetch-same t (some q) now b = (refl, refl)

  module _ (quote : Option Quote) (now : ℕ) (t : Text) (b : Backend) where
    -- a new subscription before its commit
    pub subscribe_lem :
        exists_by_user_and_ticker user.id t b.rows ≡ false
        → (let d = subscribe user t quote now b in
            (d.0.rows ≡ b.rows)
            × (d.0.cache ≡ put user.id none b.cache)
            × (d.1 ≡ inserted (name_of t b.stocks) t))
    unfolding subscribe evict
    subscribe_lem e =
        let evicted = evict user.id b in
        let f = fetch-same t quote now (register_app_key user.kis_api_key user.email evicted) in
        let r = register-same user.kis_api_key evicted in rw e (f.0 ∙ r.0, f.1 ∙ r.1, refl)

    -- and after its commit
    added_lem :
        exists_by_user_and_ticker user.id t b.rows ≡ false
        → (let d = subscribe user t quote now b in
            let b' = commit d.1 d.0 in
            (b'.rows ≡ b.rows ++ record { user = user.id; ticker = t } ∷ [])
            × (b'.cache ≡ put user.id none b.cache))
    added_lem e =
        let (rows, cache, writes) = subscribe_lem e in
        let c = commit-inserted (name_of t b.stocks) t (subscribe user t quote now b).0 in
        rw writes
          (c.0 ∙ ap (λ rs. rs ++ record { user = user.id; ticker = t } ∷ []) rows, c.1 ∙ cache)

    post-IsCoherent :
        IsPlain t
        → IsCoherent user.id b
        → IsCoherent user.id (post_subscription user t quote now b).0
    unfolding post_subscription subscribe commit
    post-IsCoherent plain h = elim (Bool-cases (is_blank t)) [
      | inl e ↦ rw e h
      | inr e ↦ elim (Bool-cases (exists_by_user_and_ticker user.id t b.rows)) [
        | inl old ↦ rw (e, subscribe, old, commit) h
        | inr new ↦
            let d = subscribe user t quote now b in
            let (rows, cache) = added_lem new in
            rw e (
              evicted-IsCoherent (commit d.1 d.0)
                (rw (rows, tickers-append user.id t b.rows)
                  (All-append IsPlain (tickers b) (t ∷ []) h.plain (plain, tt)))
                (ap (λ f. f user.id) cache ∙ put-same user.id none b.cache))
      ]
    ]

  post-refused :
      (quote : Option Quote) (now : ℕ) (t : Text) (b : Backend)
      → Tells
          (add t)
          (post_subscription user t quote now b).1
          (tickers b)
          (tickers (post_subscription user t quote now b).0)
  unfolding post_subscription
  post-refused quote now t b = elim (Bool-cases (is_blank t)) [
    | inl e ↦ rw e refl
    | inr e ↦ rw e tt
  ]

  -- the end of a removal, whose key is given
  abbrev deleted : Option Text → Text → Backend → Backend × Answer (List Item)
  deleted key t b =
      let evicted = evict user.id b in
      end_delete (
        or_rolled_back (delete_subscription user.id t ∷ []) evicted
          (tear_down key user.kis_secret_key t evicted))

  deleted_lem :
      (key : Option Text) (t : Text) (b : Backend)
      → Tells (remove t) (deleted key t b).1 (tickers b) (tickers (deleted key t b).0)
        × ((deleted key t b).0.cache ≡ put user.id none b.cache)
  unfolding commit evict
  deleted_lem none t b = (refl, refl)
  deleted_lem (some key) t b = (tickers-delete user.id t b.rows, refl)

  deleted-IsPlain :
      (key : Option Text) (t : Text) (b : Backend)
      → All IsPlain (tickers b)
      → All IsPlain (tickers (deleted key t b).0)
  unfolding commit evict
  deleted-IsPlain none t b h = h
  deleted-IsPlain (some key) t b h =
      rw (tickers-delete user.id t b.rows) (drop-All IsPlain t (tickers b) h)

  delete-Tells :
      (t : Text) (o : Option Text) (b : Backend)
      → o ≡ some t
      → (let r = delete_subscription_request user o b in
          Tells (remove t) r.1 (tickers b) (tickers r.0))
  unfolding delete_subscription_request unsubscribe
  delete-Tells t o b e = rw e (deleted_lem user.kis_api_key t b).0

  delete-IsCoherent :
      (o : Option Text) (b : Backend)
      → IsCoherent user.id b
      → IsCoherent user.id (delete_subscription_request user o b).0
  unfolding delete_subscription_request unsubscribe
  delete-IsCoherent none b h = h
  delete-IsCoherent (some t) b h =
      evicted-IsCoherent (deleted user.kis_api_key t b).0
        (deleted-IsPlain user.kis_api_key t b h.plain)
        (ap (λ f. f user.id) (deleted_lem user.kis_api_key t b).1 ∙ put-same user.id none b.cache)

  -- the list is read, from the cache or from the database
  cached_lem :
      (found : Option (List Text)) (b : Backend)
      → find (b.cache user.id) ≡ found
      → IsCoherent user.id b
      → (let r = cached_tickers user.id found b in
          (r.0 ≡ tickers b) × (tickers r.1 ≡ tickers b) × IsCoherent user.id r.1)
  unfolding save
  cached_lem none b e h = (
    refl,
    refl,
    record {
      plain = h.plain;
      cached = rw (put-same user.id (saved (tickers b)) b.cache) (Finds-saved (tickers b) h.plain);
    },
  )
  cached_lem (some l) b e h = (subst (λ o. Finds o (tickers b)) e h.cached, refl, h)

  -- Where the tickers of the database can be kept and those found in the cache are the same, a request
  -- for the list is answered with the tickers of the database, whether the cache has them or not,
  -- changes no subscription of the user, and leaves a cache that agrees with the database.
  pub get_subscriptions_lem :
      (b : Backend)
      → IsCoherent user.id b
      → (let got = get_subscriptions user.id b in
          (tickers_of got.1 ≡ tickers b) × (tickers got.0 ≡ tickers b) × IsCoherent user.id got.0)
  unfolding get_subscriptions
  get_subscriptions_lem b h =
      let r = cached_lem (find (b.cache user.id)) b refl h in
      let found = cached_tickers user.id (find (b.cache user.id)) b in
      (tickers-response b found.0 ∙ r.0, r.1, r.2)

  -- `read_path` is the ticker that the framework reads in the path of a DELETE request into which the
  -- ticker has been put as it is, none where the request has another path.
  module _ (quotes : Text → Option Quote) (now : ℕ) (searches : Text → Answer (List Item))
      (read_path : Text → Option Text) (reads : (t : Text) → IsSafe t → read_path t ≡ some t) where
    abbrev pub handle : Request → Backend → Backend × Answer (List Item)
    handle (search query) b = (b, searches query)
    handle subscriptions b = get_subscriptions_request user b
    handle (add t) b = post_subscription user t (quotes t) now b
    handle (remove t) b = delete_subscription_request user (read_path t) b

    pub handle-IsCoherent :
        (r : Request) (b : Backend)
        → IsFit IsSafe r
        → IsCoherent user.id b
        → IsCoherent user.id (handle r b).0
    unfolding get_subscriptions_request
    handle-IsCoherent (search query) b fit h = h
    handle-IsCoherent subscriptions b fit h = (get_subscriptions_lem b h).2
    handle-IsCoherent (add t) b fit h = post-IsCoherent (quotes t) now t b (safe-IsPlain t fit) h
    handle-IsCoherent (remove t) b fit h = delete-IsCoherent (read_path t) b h

    pub handle-Tells :
        (r : Request) (b : Backend)
        → IsFit IsSafe r
        → IsCoherent user.id b
        → Tells r (handle r b).1 (tickers b) (tickers (handle r b).0)
    unfolding get_subscriptions_request
    handle-Tells (search query) b fit h = refl
    handle-Tells subscriptions b fit h = let got = get_subscriptions_lem b h in (got.0, got.1)
    handle-Tells (add t) b fit h = post-refused (quotes t) now t b
    handle-Tells (remove t) b fit h = delete-Tells t (read_path t) b (reads t fit)

    -- the subscriptions of one user as the dashboard asks for them
    abbrev pub subscription_server : Server Backend
    subscription_server = record {
      handle = handle;
      tickers = tickers;
      IsPlain = IsSafe;
      IsSound = IsCoherent user.id;
      handle-IsSound = handle-IsCoherent;
      handle-Tells = handle-Tells;
    }
