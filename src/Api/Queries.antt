-- ===== src/Api/Queries.antt =====
-- What the parameters in an address are read as.
use stock_anomoly_detection.Prelude.{◌≡◌, refl, ap, ◌∙◌, [], ◌∷◌, ◌++◌, map}
use stock_anomoly_detection.Text.{Text, codes, split}
use stock_anomoly_detection.Auth.Tokens.{split-none}
use stock_anomoly_detection.Chart.{Interval, minute, day, week, month}
use stock_anomoly_detection.Api.{interval_text, more_url}
use stock_anomoly_detection.Api.Reading.{
  until, behind, pair, parameters, Lacks, until-Lacks, until-all, behind-skip,
}

-- a text without a hash, a question mark and an ampersand
abbrev pub IsPlain : Text → Type 0
IsPlain s = Lacks b'#' s × Lacks b'?' s × Lacks b'&' s

read_more :
    (i : Interval) (e : Text)
    → Lacks b'&' e
    → map pair
        (split b'&' (codes "interval=" ++ (interval_text i ++ (codes "&days=200&endDate=" ++ e))))
      ≡ (codes "interval", interval_text i)
        ∷ (codes "days", codes "200")
        ∷ (codes "endDate", e)
        ∷ []
unfolding split
read_more minute e h = rw (split-none b'&' e h) refl
read_more day e h = rw (split-none b'&' e h) refl
read_more week e h = rw (split-none b'&' e h) refl
read_more month e h = rw (split-none b'&' e h) refl

-- no hash is in the address of older candles
more_url-whole :
    (base ticker : Text) (i : Interval) (e : Text)
    → Lacks b'#' base
    → Lacks b'#' ticker
    → Lacks b'#' e
    → until b'#' (more_url base ticker i e) ≡ more_url base ticker i e
unfolding more_url
more_url-whole base ticker i e hb ht he =
    until-Lacks b'#' base _ hb ∙ ap (λ r. base ++ (codes "/api/v1/stocks/" ++ r)) (rest i)
  where
    rest :
        (j : Interval)
        → until b'#' (
            ticker
            ++ (codes "/ohlcv?interval=" ++ (interval_text j ++ (codes "&days=200&endDate=" ++ e))))
          ≡ ticker
            ++ (codes "/ohlcv?interval=" ++ (interval_text j ++ (codes "&days=200&endDate=" ++ e)))
    rest minute =
        rw
          (
            until-Lacks b'#' ticker (codes "/ohlcv?interval=1m&days=200&endDate=" ++ e) ht,
            until-all b'#' e he,
          )
          refl
    rest day =
        rw
          (
            until-Lacks b'#' ticker (codes "/ohlcv?interval=1d&days=200&endDate=" ++ e) ht,
            until-all b'#' e he,
          )
          refl
    rest week =
        rw
          (
            until-Lacks b'#' ticker (codes "/ohlcv?interval=1w&days=200&endDate=" ++ e) ht,
            until-all b'#' e he,
          )
          refl
    rest month =
        rw
          (
            until-Lacks b'#' ticker (codes "/ohlcv?interval=1M&days=200&endDate=" ++ e) ht,
            until-all b'#' e he,
          )
          refl

more_url-query :
    (base ticker : Text) (i : Interval) (e : Text)
    → Lacks b'?' base
    → Lacks b'?' ticker
    → behind b'?' (more_url base ticker i e)
      ≡ codes "interval=" ++ (interval_text i ++ (codes "&days=200&endDate=" ++ e))
unfolding more_url
more_url-query base ticker i e hb ht =
    behind-skip b'?' base _ hb
    ∙ behind-skip b'?' ticker
        (codes "/ohlcv?interval=" ++ (interval_text i ++ (codes "&days=200&endDate=" ++ e))) ht

-- The server reads the interval, 200 days and the end date that `loadMore` asks with, if the base
-- address, the ticker and the end date have no hash, question mark or ampersand.
pub parameters-more_url :
    (base ticker : Text) (i : Interval) (e : Text)
    → IsPlain base
    → IsPlain ticker
    → IsPlain e
    → parameters (more_url base ticker i e)
      ≡ (codes "interval", interval_text i)
        ∷ (codes "days", codes "200")
        ∷ (codes "endDate", e)
        ∷ []
unfolding parameters
parameters-more_url base ticker i e b t p =
    ap (λ u. map pair (split b'&' (behind b'?' u))) (more_url-whole base ticker i e b.0 t.0 p.0)
    ∙ ap (λ q. map pair (split b'&' q)) (more_url-query base ticker i e b.1 t.1)
    ∙ read_more i e p.2
