-- ===== src/Core/Engine/Positions.antt =====
-- keryxflow/core/engine.py: the positions of a running engine.
use keryx_talos.Base.Dict.{insert}
use keryx_talos.Core.Engine.Buffer.{get_ohlcv, add_price_to}
use keryx_talos.Core.Engine.Events.{handle, Event, run}
use keryx_talos.Aegis.Trailing.{
  should_trigger_stop, update_price, stop_tracking, TrailingStopManager,
}
use keryx_talos.Base.{
  not, str_eq, ◌&&◌, ◌||◌, is_some, ltb, List, ◌∷◌, refl, length, if_keeps, ℕ, String, Option-cases,
  inl, inr, [], some,
}
use keryx_talos.Base.Result.{Result-cases}
use keryx_talos.Number.{Number, Conversion}
use keryx_talos.Aegis.Risk.{set_open_positions, update_balance}
use keryx_talos.Exchange.Paper.{close_position}
use keryx_talos.Exchange.Paper.Book.{close_all_positions}
use keryx_talos.Exchange.Paper.Empty.{close_position-positions, close_all_positions-positions}
use keryx_talos.Core.Engine.{
  on_position_closed, Generator, on_position_opened, analyze_symbol, buffer_price, take_price,
  on_price_update, on_panic, close_trailing_stop, TradingEngine, truthy, is_actionable,
  should_analyze,
}
use keryx_talos.Core.Engine.Openless.{IsOpenless, sync_risk-IsOpenless, process_signal-IsOpenless}

module _ {N : Type 0} {D : Type 0} ⦃num : Number N⦄ ⦃dec : Number D⦄ ⦃conv : Conversion N D⦄ where
  analyze_symbol-IsOpenless :
      (generate : Generator N) (symbol : String) (price : N) (now : ℕ) (e : TradingEngine N D)
      → IsOpenless e
      → IsOpenless (analyze_symbol generate symbol price now e)
  unfolding analyze_symbol
  analyze_symbol-IsOpenless generate symbol price now e w =
      let e₁ : TradingEngine N D = record e { last_analysis = insert symbol now e.last_analysis } in
      let kept : IsOpenless e₁ = record { positions_eq = w.positions_eq; count_eq = w.count_eq } in
      let ohlcv = get_ohlcv symbol e.buffer in
      if_keeps IsOpenless (ltb (length ohlcv) e.min_candles) kept
        (elim (Result-cases (generate symbol ohlcv price)) [
          | inr (x, h) ↦ rw (h, analyze_symbol) kept
          | inl (signal, h) ↦
              rw (h, analyze_symbol)
                (if_keeps IsOpenless (is_actionable signal.signal_type && e.auto_trade)
                  (process_signal-IsOpenless symbol signal now e₁ kept) kept)
        ])

  close_trailing_stop-IsOpenless :
      (symbol : String) (price : N) (e : TradingEngine N D)
      → IsOpenless e
      → IsOpenless (close_trailing_stop symbol price e)
  unfolding close_trailing_stop
  close_trailing_stop-IsOpenless symbol price e w =
      let e₁ : TradingEngine N D = record e {
        trailing = stop_tracking symbol e.trailing;
        paper = (close_position symbol (some price) e.paper).0;
      } in
      let empty = close_position-positions symbol (some price) e.paper w.positions_eq in
      let kept : IsOpenless e₁ = record { positions_eq = empty; count_eq = w.count_eq } in
      elim (Result-cases (close_position symbol (some price) e.paper).1) [
        | inr (x, h) ↦ rw (h, close_trailing_stop) kept
        | inl (closed, h) ↦
            rw (h, close_trailing_stop)
              (if_keeps IsOpenless (is_some closed) (sync_risk-IsOpenless e₁ empty) kept)
      ]

  buffer_price-IsOpenless :
      (generate : Generator N) (symbol : String) (price volume : N) (now : ℕ)
      (e : TradingEngine N D)
      → IsOpenless e
      → IsOpenless (buffer_price generate symbol price volume now e)
  unfolding buffer_price
  buffer_price-IsOpenless generate symbol price volume now e w =
      let r = add_price_to now symbol price volume e.buffer in
      let e₁ : TradingEngine N D = record e { buffer = r.0 } in
      let kept : IsOpenless e₁ = record { positions_eq = w.positions_eq; count_eq = w.count_eq } in
      if_keeps IsOpenless (should_analyze now symbol r.1 e₁)
        (analyze_symbol-IsOpenless generate symbol price now e₁ kept) kept

  tracking-IsOpenless :
      (trailing : TrailingStopManager N) (e : TradingEngine N D)
      → IsOpenless e
      → IsOpenless (record e { trailing = trailing })
  tracking-IsOpenless trailing e w = record { positions_eq = w.positions_eq; count_eq = w.count_eq }

  take_price-IsOpenless :
      (generate : Generator N) (symbol : String) (price volume : N) (now : ℕ)
      (e : TradingEngine N D)
      → IsOpenless e
      → IsOpenless (take_price generate symbol price volume now e)
  unfolding take_price
  take_price-IsOpenless generate symbol price volume now e w =
      if_keeps IsOpenless e.trailing_enabled
        (elim (Result-cases (update_price symbol price e.trailing)) [
          | inr (x, h) ↦ rw (h, take_price) w
          | inl (trailing, h) ↦
              let e₁ : TradingEngine N D = record e { trailing = trailing } in
              let kept = tracking-IsOpenless trailing e w in
              rw (h, take_price)
                (if_keeps IsOpenless (should_trigger_stop symbol price trailing)
                  (close_trailing_stop-IsOpenless symbol price e₁ kept)
                  (buffer_price-IsOpenless generate symbol price volume now e₁ kept))
        ])
        (buffer_price-IsOpenless generate symbol price volume now e w)

  on_panic-IsOpenless : (e : TradingEngine N D) → IsOpenless e → IsOpenless (on_panic e)
  unfolding on_panic set_open_positions update_balance
  on_panic-IsOpenless e w =
      let empty = close_all_positions-positions e.paper w.positions_eq in
      elim (Result-cases (close_all_positions e.paper).1) [
        | inl (closed, h) ↦ rw (h, on_panic) record { positions_eq = empty; count_eq = refl }
        | inr (x, h) ↦ rw (h, on_panic) record { positions_eq = empty; count_eq = w.count_eq }
      ]

  handle-IsOpenless :
      (generate : Generator N) (now : ℕ) (event : Event N) (e : TradingEngine N D)
      → IsOpenless e
      → IsOpenless (handle generate now event e)
  unfolding on_price_update on_position_opened on_position_closed
  handle-IsOpenless generate now (Event.price_update symbol price volume) e w =
      if_keeps IsOpenless (e.paused || str_eq symbol "") w (elim (Option-cases (truthy price)) [
        | inl missing ↦ rw (missing, on_price_update) w
        | inr (p, h) ↦
            rw (h, on_price_update) (take_price-IsOpenless generate symbol p volume now e w)
      ])
  handle-IsOpenless generate now (Event.position_opened symbol side entry_price) e w =
      if_keeps IsOpenless (not e.trailing_enabled || str_eq symbol "") w
        (elim (Option-cases (truthy entry_price)) [
          | inl missing ↦ rw (missing, on_position_opened) w
          | inr (entry, h) ↦ rw (h, on_position_opened) (tracking-IsOpenless _ e w)
        ])
  handle-IsOpenless generate now (Event.position_closed symbol) e w =
      if_keeps IsOpenless (not e.trailing_enabled || str_eq symbol "") w (tracking-IsOpenless _ e w)
  handle-IsOpenless generate now Event.system_paused e w = record {
    positions_eq = w.positions_eq;
    count_eq = w.count_eq;
  }
  handle-IsOpenless generate now Event.system_resumed e w = record {
    positions_eq = w.positions_eq;
    count_eq = w.count_eq;
  }
  handle-IsOpenless generate now Event.panic_triggered e w = on_panic-IsOpenless e w

  -- An engine that has no position, and whose risk manager counts none, has none after any events,
  -- whatever the signals were: an order that `_execute_order` executes moves balances and opens no
  -- position, so the count that is compared with the most open positions stays 0.
  pub run-IsOpenless :
      (generate : Generator N) (events : List (ℕ × Event N)) (e : TradingEngine N D)
      → IsOpenless e
      → IsOpenless (run generate events e)
  unfolding run
  run-IsOpenless generate [] e w = w
  run-IsOpenless generate ((now, event) ∷ events) e w =
      run-IsOpenless generate events _ (handle-IsOpenless generate now event e w)
