-- ===== src/Profile/Laws.antt =====
-- Saving the keys on the profile page.
use stock_anomoly_detection.Profile.{ProfilePage, Answer, failed, not_ok, ok, KeysRequest}

-- whether the keys were stored
abbrev pub IsOk : Answer (Unit {0}) → Type 0
IsOk failed = ⊥
IsOk (not_ok status text) = ⊥
IsOk (ok u) = Unit

abbrev pub both_keys : ProfilePage → KeysRequest
both_keys p = record { kis_api_key = p.kis_api_key; kis_secret_key = p.kis_secret_key }
