-- ===== src/App/Prices.antt =====
-- Which prices of the event stream reach the chart.
use stock_anomoly_detection.Prelude.{
  ℕ, ◌≡◌, refl, sym, ap, ◌∙◌, ◌≢◌, ◌⊎◌, inl, inr, true, false, List, [], ◌∷◌, Option, none, some,
  length, ◌==◌, arith,
}
use stock_anomoly_detection.Text.{Text, text_eq, text_eq_iff, text_eq_refl}
use stock_anomoly_detection.Dashboard.{
  Stock, Tick, updated, update_stock, on_stock_tick, map_option,
}
use stock_anomoly_detection.Dashboard.Events as Events
use stock_anomoly_detection.Chart.{OhlcvPoint}
use stock_anomoly_detection.Chart.Ticks.{tick_update, apply_ticks}
use stock_anomoly_detection.Chart.Session.{PriceChart, push}
use stock_anomoly_detection.Chart.Session.Handlers.{on_price, apply_all}
use stock_anomoly_detection.Chart.Session.Steps.{World}
use stock_anomoly_detection.App.{
  App, on_page, same_text, ticker_of, price_of, price_effect, select_effects, effects, step,
}

same_text_refl : (a : Option Text) → same_text a a ≡ true
same_text_refl none = refl
same_text_refl (some a) = text_eq_refl a

same_ticker-select_effects :
    (old new : Option Stock) (w : World)
    → ticker_of old ≡ ticker_of new
    → select_effects old new w ≡ w
unfolding select_effects
same_ticker-select_effects old new w e =
    rw (ap (λ t. same_text (ticker_of old) t) (sym e) ∙ same_text_refl (ticker_of old)) refl

live_price :
    (p now : ℕ) (c : PriceChart)
    → p ≢ 0
    → c.is_history_loaded ≡ true
    → c.candle_series ≡ true
    → (length c.ohlcv_data_ref == 0) ≡ false
    → (on_price (some p) now c).ohlcv_data ≡ (tick_update c.interval_ref p now c.ohlcv_data).0
unfolding on_price apply_all apply_ticks push
live_price p now c positive loaded there some_data =
    let nonzero : (p == 0) ≡ false = ground arith in simp (nonzero, loaded, there, some_data)

not_empty : (l : List OhlcvPoint) → l ≢ [] → (length l == 0) ≡ false
not_empty [] k = absurd (k refl)
not_empty (x ∷ l) k = ground arith

module _ {N : Type 0} (to_text : N → Text) (parse_float : Text → Option ℕ) where
  -- a tick that leaves the selected stock's price as it is shown
  abbrev pub IsUnseen : Tick N → Option Stock → Type 0
  IsUnseen tick none = Unit
  IsUnseen tick (some s) = (s.ticker ≢ tick.ticker) ⊎ (to_text tick.price ≡ s.price)

  ticked_ticker :
      (tick : Tick N) (o : Option Stock)
      → ticker_of o ≡ ticker_of (map_option (update_stock to_text tick) o)
  unfolding update_stock updated
  ticked_ticker tick none = refl
  ticked_ticker tick (some s) = ground arith

  unseen_price :
      (tick : Tick N) (o : Option Stock)
      → IsUnseen tick o
      → price_of o ≡ price_of (map_option (update_stock to_text tick) o)
  unfolding update_stock updated
  unseen_price tick none h = refl
  unseen_price tick (some s) (inl other) = ground (arith, text_eq_iff s.ticker tick.ticker)
  unseen_price tick (some s) (inr same) = ground (arith, same)

  -- A tick of a stock that is not selected, and a tick of the selected one with the price already shown,
  -- leave the chart as it is, whatever the time: such a price begins no candle of a new minute or day.
  pub unseen_tick :
      (tick : Tick N) (now : ℕ) (a : App N)
      → IsUnseen tick a.page.selected_stock
      → (step to_text parse_float (on_page (Events.ticked tick) now) a).chart ≡ a.chart
  unfolding step effects Events.step on_stock_tick
  unseen_tick tick now a h =
      let o = a.page.selected_stock in
      rw
        (
          ap (same_text (price_of o)) (sym (unseen_price tick o h)) ∙ same_text_refl (price_of o),
          same_ticker-select_effects o (map_option (update_stock to_text tick) o) a.chart
              (ticked_ticker tick o),
        )
        refl

  seen_price :
      (tick : Tick N) (s : Stock)
      → s.ticker ≡ tick.ticker
      → update_stock to_text tick s ≡ updated to_text tick s
  unfolding update_stock
  seen_price tick s e = rw ((text_eq_iff s.ticker tick.ticker).1 e) refl

  price_effect-data :
      (stock : Stock) (p now : ℕ) (c : PriceChart)
      → parse_float stock.price ≡ some p
      → p ≢ 0
      → c.candle_series ≡ true
      → c.ohlcv_data_ref ≢ []
      → (price_effect to_text parse_float (some stock) true now c).ohlcv_data
        ≡ (tick_update c.interval_ref p now c.ohlcv_data).0
  unfolding price_effect
  price_effect-data stock p now c parsed positive there some_data =
      ap (λ o. (on_price o now (record c { is_history_loaded = true })).ohlcv_data) parsed
      ∙ live_price p now (record c { is_history_loaded = true }) positive refl there
          (not_empty c.ohlcv_data_ref some_data)

  -- the effects where only the price has changed
  effects-price :
      (s t : Stock) (p now : ℕ) (w : World)
      → s.ticker ≡ t.ticker
      → s.price ≢ t.price
      → parse_float t.price ≡ some p
      → p ≢ 0
      → w.chart.is_history_loaded ≡ true
      → w.chart.candle_series ≡ true
      → w.chart.ohlcv_data_ref ≢ []
      → (effects to_text parse_float (some s) (some t) now w).chart.ohlcv_data
        ≡ (tick_update w.chart.interval_ref p now w.chart.ohlcv_data).0
  unfolding effects
  effects-price s t p now w same moved parsed positive loaded there some_data =
      let other : text_eq s.price t.price ≡ false = ground (arith, text_eq_iff s.price t.price) in
      rw (other, same_ticker-select_effects (some s) (some t) w (ap some same))
        (ap (λ b. (price_effect to_text parse_float (some t) b now w.chart).ohlcv_data) loaded
          ∙ price_effect-data t p now w.chart parsed positive there some_data)

  -- A tick of the selected stock with another price that is a number but zero becomes the stock's price
  -- and, where the chart has shown its history, a live price of the chart's series at that time.
  pub seen_tick :
      (tick : Tick N) (now p : ℕ) (a : App N) (s : Stock)
      → a.page.selected_stock ≡ some s
      → s.ticker ≡ tick.ticker
      → to_text tick.price ≢ s.price
      → parse_float (to_text tick.price) ≡ some p
      → p ≢ 0
      → a.chart.chart.is_history_loaded ≡ true
      → a.chart.chart.candle_series ≡ true
      → a.chart.chart.ohlcv_data_ref ≢ []
      → (let b = step to_text parse_float (on_page (Events.ticked tick) now) a in
          (price_of b.page.selected_stock ≡ some (to_text tick.price))
          × (b.chart.chart.ohlcv_data
              ≡ (tick_update a.chart.chart.interval_ref p now a.chart.chart.ohlcv_data).0))
  unfolding step Events.step on_stock_tick updated
  seen_tick tick now p a s e same moved parsed positive loaded there some_data =
      let s' = updated to_text tick s in
      let after : map_option (update_stock to_text tick) a.page.selected_stock ≡ some s' =
        ap (map_option (update_stock to_text tick)) e ∙ ap some (seen_price tick s same) in
      (
        ap price_of after,
        ap
              (λ o.
                (effects to_text parse_float o (map_option (update_stock to_text tick) o) now
                  a.chart).chart.ohlcv_data)
              e
            ∙ ap (λ o. (effects to_text parse_float (some s) o now a.chart).chart.ohlcv_data)
                (ap some (seen_price tick s same))
            ∙ effects-price s s' p now a.chart refl (λ h. moved (sym h)) parsed positive loaded
                there some_data,
      )
