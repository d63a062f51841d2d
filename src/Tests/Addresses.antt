-- ===== src/Tests/Addresses.antt =====
-- The addresses that are asked, at concrete inputs.
use stock_anomoly_detection.Prelude.{
  map, if◌then◌else◌, ℕ, ◌≡◌, refl, Bool, true, not, ◌&&◌, ◌==◌, [], ◌∷◌, none, arith,
}
use stock_anomoly_detection.Text.{Text, codes}
use stock_anomoly_detection.Chart.{day}
use stock_anomoly_detection.Api.{api_base_url, interval_text, more_url}
use stock_anomoly_detection.Api.Reading.{Lacks, parameters}
use stock_anomoly_detection.Api.Queries.{IsPlain, parameters-more_url}

abbrev pub lacks : ℕ → Text → Bool
lacks c [] = true
lacks c (x ∷ s) = not (x == c) && lacks c s

pub lacks-Lacks : (c : ℕ) (s : Text) → lacks c s ≡ true → Lacks c s
lacks-Lacks c [] e = tt
lacks-Lacks c (x ∷ s) e = (ground arith, lacks-Lacks c s (ground arith))

plain : (s : Text) → lacks b'#' s ≡ true → lacks b'?' s ≡ true → lacks b'&' s ≡ true → IsPlain s
plain s h q a = (lacks-Lacks b'#' s h, lacks-Lacks b'?' s q, lacks-Lacks b'&' s a)

abbrev base : Text
base = codes "http://localhost:8080"

default_base : api_base_url none ≡ base
unfolding api_base_url
default_base = refl

-- a plus sign is read as a space
abbrev spaced : Text → Text
spaced t = map (λ (c : ℕ). if c == b'+' then b' ' else c) t

parameters-more_url_example :
    parameters (more_url base (codes "005930") day (codes "20251231"))
    ≡ (codes "interval", interval_text day)
      ∷ (codes "days", codes "200")
      ∷ (codes "endDate", codes "20251231")
      ∷ []
parameters-more_url_example =
    parameters-more_url base (codes "005930") day (codes "20251231") (plain base refl refl refl)
      (plain (codes "005930") refl refl refl) (plain (codes "20251231") refl refl refl)
