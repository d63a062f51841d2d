-- ===== src/Dashboard/Stocks.antt =====
-- The watch list and the selected stock show the same data.
use mathlib.Core.Path.{subst}
use stock_anomoly_detection.Prelude.{
  ℕ, zero, suc, ◌≡◌, ◌≢◌, refl, sym, ap, ◌∙◌, Bool, not, List, [], ◌∷◌, map, Option, none, some,
  keep, All, arith, if_cases,
}
use stock_anomoly_detection.Text.{Text, text_eq}
use stock_anomoly_detection.Dashboard.{
  Stock, Dashboard, Tick, updated, update_stock, map_option, on_stock_tick, on_anomaly_alert,
  on_ai_signal, select_stock, failed, not_ok, ok,
}
use stock_anomoly_detection.Dashboard.Search.{on_unsubscribed, deselect}
use stock_anomoly_detection.Dashboard.Events.{
  Event, ticked, alerted, signalled, selected, unsubscribed, get_elem?, click, step, run,
}

-- no ticker twice
abbrev pub IsDistinct : List Stock → Type 0
IsDistinct [] = Unit
IsDistinct (s ∷ ss) = All (λ (t : Stock). s.ticker ≢ t.ticker) ss × IsDistinct ss

-- a listed stock with the selected ticker is the selected stock
abbrev pub Agrees : Option Stock → List Stock → Type 0
Agrees none ss = Unit
Agrees (some s) ss = All (λ (t : Stock). t.ticker ≡ s.ticker → t ≡ s) ss

pub record IsConsistent {N : Type 0} (d : Dashboard N) : Type 0 where
  pub distinct : IsDistinct d.stocks
  pub agrees : Agrees d.selected_stock d.stocks

module _ {N : Type 0} (to_text : N → Text) where
  pub update_stock-ticker :
      (tick : Tick N) (s : Stock) → (update_stock to_text tick s).ticker ≡ s.ticker
  unfolding update_stock updated
  update_stock-ticker tick s = ground arith

  module _ (tick : Tick N) where
    update-ne :
        (s : Stock) (ss : List Stock)
        → All (λ (t : Stock). s.ticker ≢ t.ticker) ss
        → All
            (λ (t : Stock). (update_stock to_text tick s).ticker ≢ t.ticker)
            (map (update_stock to_text tick) ss)
    update-ne s [] h = tt
    update-ne s (t ∷ ss) h =
        (rw (update_stock-ticker tick s, update_stock-ticker tick t) h.0, update-ne s ss h.1)

    update-IsDistinct :
        (ss : List Stock) → IsDistinct ss → IsDistinct (map (update_stock to_text tick) ss)
    update-IsDistinct [] h = tt
    update-IsDistinct (s ∷ ss) h = (update-ne s ss h.0, update-IsDistinct ss h.1)

    update-Agrees :
        (o : Option Stock) (ss : List Stock)
        → Agrees o ss
        → Agrees (map_option (update_stock to_text tick) o) (map (update_stock to_text tick) ss)
    update-Agrees none ss h = tt
    update-Agrees (some s) [] h = tt
    update-Agrees (some s) (t ∷ ss) h = (
      λ e.
          ap (update_stock to_text tick)
            (h.0 (sym (update_stock-ticker tick t) ∙ (e ∙ update_stock-ticker tick s))),
      update-Agrees (some s) ss h.1,
    )

  module _ (p : Stock → Bool) where
    keep-All : (P : Stock → Type 0) (ss : List Stock) → All P ss → All P (keep p ss)
    keep-All P [] h = tt
    keep-All P (s ∷ ss) h =
        if_cases (All P) (p s) (λ _. (h.0, keep-All P ss h.1)) (λ _. keep-All P ss h.1)

    keep-IsDistinct : (ss : List Stock) → IsDistinct ss → IsDistinct (keep p ss)
    keep-IsDistinct [] h = tt
    keep-IsDistinct (s ∷ ss) h =
        if_cases IsDistinct (p s)
          (λ _. (keep-All (λ t. s.ticker ≢ t.ticker) ss h.0, keep-IsDistinct ss h.1))
          (λ _. keep-IsDistinct ss h.1)

    keep-Agrees : (o : Option Stock) (ss : List Stock) → Agrees o ss → Agrees o (keep p ss)
    keep-Agrees none ss h = tt
    keep-Agrees (some s) ss h = keep-All (λ t. t.ticker ≡ s.ticker → t ≡ s) ss h

  deselect-Agrees :
      (ticker : Text) (o : Option Stock) (ss : List Stock)
      → Agrees o ss
      → Agrees (deselect ticker o) ss
  deselect-Agrees ticker none ss h = tt
  deselect-Agrees ticker (some s) ss h =
      if_cases (λ o. Agrees o ss) (text_eq s.ticker ticker) (λ _. tt) (λ _. h)

  others :
      (s : Stock) (ss : List Stock)
      → All (λ (t : Stock). s.ticker ≢ t.ticker) ss
      → All (λ (t : Stock). t.ticker ≡ s.ticker → t ≡ s) ss
  others s [] h = tt
  others s (t ∷ ss) h = (λ e. absurd (h.0 (sym e)), others s ss h.1)

  pick_ne :
      (s r : Stock) (ss : List Stock) (n : ℕ)
      → All (λ (t : Stock). s.ticker ≢ t.ticker) ss
      → get_elem? ss n ≡ some r
      → s.ticker ≢ r.ticker
  pick_ne s r [] n h e = absurd (ground arith)
  pick_ne s r (t ∷ ss) zero h e = let e' : t ≡ r = ground arith in rw (← e') h.0
  pick_ne s r (t ∷ ss) (suc n) h e = pick_ne s r ss n h.1 e

  pick-Agrees :
      (ss : List Stock) (n : ℕ) (s : Stock)
      → IsDistinct ss
      → get_elem? ss n ≡ some s
      → Agrees (some s) ss
  pick-Agrees [] n s d e = tt
  pick-Agrees (t ∷ ss) zero s d e =
      let e' : t ≡ s = ground arith in
      subst (λ (r : Stock). Agrees (some r) (t ∷ ss)) e' (λ _. refl, others t ss d.0)
  pick-Agrees (t ∷ ss) (suc n) s d e =
      (λ same. absurd (pick_ne t s ss n d.0 e same), pick-Agrees ss n s d.1 e)

  click-IsConsistent :
      (o : Option Stock) (n : ℕ) (d : Dashboard N)
      → get_elem? d.stocks n ≡ o
      → IsConsistent d
      → IsConsistent (click to_text o d)
  unfolding click select_stock
  click-IsConsistent none n d e h = h
  click-IsConsistent (some s) n d e h = record {
    distinct = h.distinct;
    agrees = pick-Agrees d.stocks n s h.distinct e;
  }

  step-IsConsistent :
      (e : Event N) (d : Dashboard N) → IsConsistent d → IsConsistent (step to_text e d)
  unfolding step on_stock_tick on_anomaly_alert on_ai_signal on_unsubscribed
  step-IsConsistent (ticked tick) d h = record {
    distinct = update-IsDistinct tick d.stocks h.distinct;
    agrees = update-Agrees tick d.selected_stock d.stocks h.agrees;
  }
  step-IsConsistent (alerted raw) d h = record { distinct = h.distinct; agrees = h.agrees }
  step-IsConsistent (signalled raw) d h = record { distinct = h.distinct; agrees = h.agrees }
  step-IsConsistent (selected n) d h = click-IsConsistent (get_elem? d.stocks n) n d refl h
  step-IsConsistent (unsubscribed t failed) d h = h
  step-IsConsistent (unsubscribed t not_ok) d h = h
  step-IsConsistent (unsubscribed t (ok u)) d h =
      let p = λ (s : Stock). not (text_eq s.ticker t) in
      record {
        distinct = keep-IsDistinct p d.stocks h.distinct;
        agrees =
            keep-Agrees p (deselect t d.selected_stock) d.stocks
              (deselect-Agrees t d.selected_stock d.stocks h.agrees);
      }

  -- From a page that has no ticker twice and whose selected stock is listed as it is, if at all, in any
  -- order of ticks, alerts, signals, selections and answers to unsubscriptions, no list of subscriptions
  -- being answered: the list has no ticker twice, and the selected stock has the very data of the listed
  -- stock with its ticker.
  pub run-IsConsistent :
      (es : List (Event N)) (d : Dashboard N) → IsConsistent d → IsConsistent (run to_text es d)
  unfolding run
  run-IsConsistent [] d h = h
  run-IsConsistent (e ∷ es) d h = run-IsConsistent es (step to_text e d) (step-IsConsistent e d h)

  update-gone :
      (tick : Tick N) (ss : List Stock)
      → map
          (update_stock to_text tick)
          (keep (λ (s : Stock). not (text_eq s.ticker tick.ticker)) ss)
        ≡ keep (λ (s : Stock). not (text_eq s.ticker tick.ticker)) ss
  unfolding update_stock
  update-gone tick [] = refl
  update-gone tick (s ∷ ss) = ground (arith, update-gone tick ss)

  update-deselected :
      (tick : Tick N) (o : Option Stock)
      → map_option (update_stock to_text tick) (deselect tick.ticker o) ≡ deselect tick.ticker o
  unfolding update_stock
  update-deselected tick none = refl
  update-deselected tick (some s) = ground arith

  -- After a successful unsubscription a late tick of that ticker changes nothing.
  pub late_tick_ignored :
      (tick : Tick N) (d : Dashboard N)
      → on_stock_tick to_text tick (on_unsubscribed tick.ticker (ok tt) d)
        ≡ on_unsubscribed tick.ticker (ok tt) d
  unfolding on_stock_tick on_unsubscribed
  late_tick_ignored tick d = rw (update-gone tick d.stocks, update-deselected tick d.selected_stock)
