-- ===== src/Tests/Displays.antt =====
-- A candlestick series that is a list of candles.
use stock_anomoly_detection.Prelude.{
  ◌≡◌, refl, sym, ap, ◌∙◌, true, false, List, [], ◌∷◌, ◌++◌, map, if◌then◌else◌, Bool-cases, inl,
  inr, arith,
}
use stock_anomoly_detection.Text.Order.{text_lt_irrefl}
use stock_anomoly_detection.Chart.{TimeKey, date_string, epoch, key_eq, key_lt, key_eq_iff}
use stock_anomoly_detection.Chart.Series.{Candle}
use stock_anomoly_detection.Chart.Display.{CandlestickSeries, candle_of_bar}

pub place : Candle → List Candle → List Candle
place c [] = c ∷ []
place c (x ∷ []) = if key_eq x.time c.time then c ∷ [] else x ∷ c ∷ []
place c (x ∷ y ∷ m) = x ∷ place c (y ∷ m)

key_lt_irrefl : (k : TimeKey) → key_lt k k ≡ false
unfolding key_lt
key_lt_irrefl (date_string s) = text_lt_irrefl s
key_lt_irrefl (epoch n) = ground arith

key_eq_of_lt : (a b : TimeKey) → key_lt a b ≡ true → key_eq a b ≡ false
key_eq_of_lt a b h = elim (Bool-cases (key_eq a b)) [
  | inl same ↦
      let e = (key_eq_iff a b).0 same in
      let irrefl : key_lt a b ≡ false = ap (key_lt a) (sym e) ∙ key_lt_irrefl a in
      absurd (ground arith)
  | inr other ↦ other
]

pub place_last :
    (before : List Candle) (old new : Candle)
    → old.time ≡ new.time
    → place new (before ++ old ∷ []) ≡ before ++ new ∷ []
unfolding place
place_last [] old new e = rw ((key_eq_iff old.time new.time).1 e) refl
place_last (x ∷ []) old new e = ap (◌∷◌ x) (place_last [] old new e)
place_last (x ∷ y ∷ m) old new e = ap (◌∷◌ x) (place_last (y ∷ m) old new e)

pub place_later :
    (before : List Candle) (old new : Candle)
    → key_lt old.time new.time ≡ true
    → place new (before ++ old ∷ []) ≡ (before ++ old ∷ []) ++ new ∷ []
unfolding place
place_later [] old new h = rw (key_eq_of_lt old.time new.time h) refl
place_later (x ∷ []) old new h = ap (◌∷◌ x) (place_later [] old new h)
place_later (x ∷ y ∷ m) old new h = ap (◌∷◌ x) (place_later (y ∷ m) old new h)

pub place_first : (new : Candle) (s : List Candle) → s ≡ [] → place new s ≡ new ∷ []
unfolding place
place_first new s e = ap (place new) e

abbrev pub list_series : CandlestickSeries
list_series = record {
  Series = List Candle;
  set_data = λ bars s. map candle_of_bar bars;
  update = place;
  shown = λ s. s;
  shown-set_data = λ bars s. refl;
  shown-update_first = place_first;
  shown-update_last = λ before old new s e same. ap (place new) e ∙ place_last before old new same;
  shown-update_later =
      λ before old new s e later. ap (place new) e ∙ place_later before old new later;
}
