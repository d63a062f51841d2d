-- ===== src/Auth/Matcher.antt =====
-- The paths that web-app/proxy.ts is run for: `config.matcher`, a regular expression over the whole
-- path in which the framework looks, and the requests that pass.
use stock_anomoly_detection.Prelude.{
  ◌≡◌, refl, ◌↔◌, ◌⊎◌, inl, inr, Bool, true, false, not, ◌&&◌, ◌||◌, [], ◌∷◌, ◌++◌, ap, sym, ◌∙◌,
  Option, none, some, if◌then◌else◌, Bool-cases, arith, ℕ, zero, suc, ◌==◌,
}
use stock_anomoly_detection.Text.{Text, codes, starts_with}
use stock_anomoly_detection.Auth.{Verdict, next, redirect, truthy, proxy}

abbrev pub drop : ℕ → Text → Text
drop zero s = s
drop (suc n) [] = []
drop (suc n) (c ∷ s) = drop n s

abbrev pub behind : Text → Text
behind [] = []
behind (c ∷ s) = s

-- `favicon.ico` in a regular expression: the dot stands for any one character
unfoldable pub is_favicon : Text → Bool
is_favicon rest =
    starts_with rest (codes "favicon") && starts_with (behind (drop 7 rest)) (codes "ico")

-- `(?!api|_next/static|_next/image|favicon.ico)`, looked ahead behind the slash
unfoldable pub is_excluded : Text → Bool
unfolding is_favicon
is_excluded rest =
    starts_with rest (codes "api")
    || starts_with rest (codes "_next/static")
    || starts_with rest (codes "_next/image")
    || is_favicon rest

-- `/((?!...).*)`
unfoldable pub matches : Text → Bool
unfolding is_excluded
matches [] = false
matches (c ∷ rest) = c == b'/' && not (is_excluded rest)

-- a request of a path, with the decoded cookie
unfoldable pub handle : Text → Option Text → Verdict
handle path token = if matches path then proxy path token else next

abbrev pub is_public : Text → Bool
is_public path = starts_with path (codes "/auth/login") || starts_with path (codes "/auth/signup")

proxy_next :
    (path : Text) (token : Option Text)
    → (proxy path token ≡ redirect (codes "/auth/login"))
      ↔ ((is_public path ≡ false) × (truthy token ≡ none))
unfolding proxy
proxy_next path none = ground arith
proxy_next path (some []) = ground arith
proxy_next path (some (c ∷ t)) = ground arith

decides :
    (path : Text) (token : Option Text)
    → (handle path token ≡ redirect (codes "/auth/login"))
      ↔ ((matches path ≡ true) × (is_public path ≡ false) × (truthy token ≡ none))
unfolding handle
decides path token = elim (Bool-cases (matches path)) [
  | inl inside ↦ rw inside (
    (λ h. let r = (proxy_next path token).0 h in (refl, r.0, r.1)),
    λ h. (proxy_next path token).1 (h.1, h.2),
  )
  | inr outside ↦ rw outside (λ h. absurd (ground arith), λ h. absurd (ground arith))
]

outcomes :
    (path : Text) (token : Option Text)
    → (handle path token ≡ next) ⊎ (handle path token ≡ redirect (codes "/auth/login"))
unfolding handle proxy
outcomes path none = ground arith
outcomes path (some []) = ground arith
outcomes path (some (c ∷ t)) = ground arith

-- a text that begins with another
abbrev pub Begins : Text → Text → Type 0
Begins start path = (rest : Text) × (path ≡ start ++ rest)

-- The paths of the interface and the assets, each with whatever follows; the dot of the icon's name is
-- any character.
abbrev pub IsAside : Text → Type 0
IsAside path =
    ((Begins (codes "/api") path ⊎ Begins (codes "/_next/static") path)
      ⊎ Begins (codes "/_next/image") path)
    ⊎ ((c : ℕ) × Begins (codes "/favicon" ++ c ∷ codes "ico") path)

-- the login and signup pages
abbrev pub IsEntrance : Text → Type 0
IsEntrance path = Begins (codes "/auth/login") path ⊎ Begins (codes "/auth/signup") path

starts_iff : (start path : Text) → (starts_with path start ≡ true) ↔ Begins start path
unfolding starts_with
starts_iff [] path = (λ e. (path, refl), λ b. refl)
starts_iff (a ∷ start) [] = (λ e. absurd (ground arith), λ b. absurd (let e = b.1 in ground arith))
starts_iff (a ∷ start) (c ∷ path) = (
  λ e.
      let (rest, same) = (starts_iff start path).0 (ground arith) in
      let h : c ≡ a = ground arith in (rest, rw (h, same) refl),
  λ b.
      let e = b.1 in
      let h : c ≡ a = ground arith in
      let t : path ≡ start ++ b.0 = ground arith in
      let r = (starts_iff start path).1 (b.0, t) in rw h (ground (arith, r)),
)

slash_iff : (start rest : Text) → Begins start rest ↔ Begins (b'/' ∷ start) (b'/' ∷ rest)
slash_iff start rest = (λ b. (b.0, ap (◌∷◌ b'/') b.1), λ b. (b.0, let e = b.1 in ground arith))

icon_end :
    (r : Text)
    → starts_with (behind r) (codes "ico") ≡ true
    → (c : ℕ) × (q : Text) × (r ≡ c ∷ (codes "ico" ++ q))
unfolding starts_with
icon_end [] e = absurd (ground arith)
icon_end (c ∷ r) e = let (q, same) = (starts_iff (codes "ico") r).0 e in (c, q, ap (◌∷◌ c) same)

favicon_iff :
    (rest : Text)
    → (is_favicon rest ≡ true)
      ↔ ((c : ℕ) × Begins (codes "/favicon" ++ c ∷ codes "ico") (b'/' ∷ rest))
unfolding is_favicon starts_with
favicon_iff rest = (from, to)
  where
    from :
        starts_with rest (codes "favicon") && starts_with (behind (drop 7 rest)) (codes "ico")
          ≡ true
        → (c : ℕ) × Begins (codes "/favicon" ++ c ∷ codes "ico") (b'/' ∷ rest)
    from e =
        let first : starts_with rest (codes "favicon") ≡ true = ground arith in
        let second : starts_with (behind (drop 7 rest)) (codes "ico") ≡ true = ground arith in
        let (r, same) = (starts_iff (codes "favicon") rest).0 first in
        let (c, q, end) =
          icon_end r
            (sym (ap (λ t. starts_with (behind (drop 7 t)) (codes "ico")) same) ∙ second) in
        (c, (q, ap (◌∷◌ b'/') (same ∙ ap (λ t. codes "favicon" ++ t) end)))

    to :
        (c : ℕ) × Begins (codes "/favicon" ++ c ∷ codes "ico") (b'/' ∷ rest)
        → starts_with rest (codes "favicon") && starts_with (behind (drop 7 rest)) (codes "ico")
          ≡ true
    to (c, (q, e)) =
        let same = (slash_iff (codes "favicon" ++ c ∷ codes "ico") rest).1 (q, e) in
        ap (λ t. starts_with t (codes "favicon") && starts_with (behind (drop 7 t)) (codes "ico"))
          same.1

either : (a b : Bool) {A B : Type 0} → (a ≡ true) ↔ A → (b ≡ true) ↔ B → ((a || b) ≡ true) ↔ (A ⊎ B)
either true b f g = (λ _. inl (f.0 refl), λ _. refl)
either false b {A} {B} f g = (λ e. inr (g.0 e), back)
  where
    back : A ⊎ B → b ≡ true
    back (inl x) = absurd (let e = f.1 x in ground arith)
    back (inr x) = g.1 x

slashed :
    (start rest : Text) → (starts_with rest start ≡ true) ↔ Begins (b'/' ∷ start) (b'/' ∷ rest)
slashed start rest =
    let b = starts_iff start rest in
    let t = slash_iff start rest in (λ e. t.0 (b.0 e), λ e. b.1 (t.1 e))

excluded_iff : (rest : Text) → (is_excluded rest ≡ true) ↔ IsAside (b'/' ∷ rest)
unfolding is_excluded
excluded_iff rest =
    let api = starts_with rest (codes "api") in
    let static = starts_with rest (codes "_next/static") in
    let image = starts_with rest (codes "_next/image") in
    either (api || static || image) (is_favicon rest)
      (either (api || static) image
        (either api static (slashed (codes "api") rest) (slashed (codes "_next/static") rest))
        (slashed (codes "_next/image") rest))
      (favicon_iff rest)

public_iff : (path : Text) → (is_public path ≡ true) ↔ IsEntrance path
public_iff path =
    either (starts_with path (codes "/auth/login")) (starts_with path (codes "/auth/signup"))
      (starts_iff (codes "/auth/login") path) (starts_iff (codes "/auth/signup") path)

negated : (b : Bool) {A : Type 0} → (b ≡ true) ↔ A → (b ≡ false) ↔ (¬ A)
negated true f = (λ e. absurd (ground arith), λ n. absurd (n (f.0 refl)))
negated false f = (λ _. λ a. absurd (let e = f.1 a in ground arith), λ _. refl)

matches_iff : (path : Text) → (matches path ≡ true) ↔ (Begins (codes "/") path × (¬ IsAside path))
unfolding matches
matches_iff [] = (λ e. absurd (ground arith), λ h. absurd (let e = h.0.1 in ground arith))
matches_iff (c ∷ rest) =
    let aside = negated (is_excluded rest) (excluded_iff rest) in
    (
      λ e.
          let same : c ≡ b'/' = ground arith in
          let out : is_excluded rest ≡ false = ground arith in rw same ((rest, refl), aside.0 out),
      λ h.
          let e = h.0.1 in
          let same : c ≡ b'/' = ground arith in
          let out = aside.1 (rw same at h.1) in ground (arith, same, out),
    )

-- A request is sent to the login page exactly when its path begins with a slash, none of `/api`,
-- `/_next/static`, `/_next/image` and the icon's name begins it, nor `/auth/login` nor
-- `/auth/signup`, and the cookie holds no token; all others go on. So without a token the dashboard
-- and the profile page are sent there, and the page one is sent to is not.
pub handle_lem :
    (path : Text) (token : Option Text)
    → ((handle path token ≡ redirect (codes "/auth/login")) ↔ (
        Begins (codes "/") path × (¬ IsAside path) × (¬ IsEntrance path) × (truthy token ≡ none)))
      × ((handle path token ≡ next) ⊎ (handle path token ≡ redirect (codes "/auth/login")))
      × (handle (codes "/") none ≡ redirect (codes "/auth/login"))
      × (handle (codes "/settings/profile") none ≡ redirect (codes "/auth/login"))
      × (handle (codes "/auth/login") token ≡ next)
unfolding handle matches starts_with proxy
handle_lem path token =
    let d = decides path token in
    let m = matches_iff path in
    let n = negated (is_public path) (public_iff path) in
    (
      (
        λ e. let r = d.0 e in let b = m.0 r.0 in (b.0, b.1, n.0 r.1, r.2),
        λ h. d.1 (m.1 (h.0, h.1), n.1 h.2, h.3),
      ),
      outcomes path token,
      refl,
      refl,
      refl,
    )
