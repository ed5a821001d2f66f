-- ===== src/Core/Engine/Openless.antt =====
-- keryxflow/core/engine.py: what an entry signal does to an account without positions.
use keryx_talos.Base.{
  ◌≡◌, ◌∙◌, ap, length, if_keeps, ℕ, String, Option, Option-cases, inl, inr, [], some, arith,
}
use keryx_talos.Base.Result.{Result-cases}
use keryx_talos.Number.{Number, Conversion, nought}
use keryx_talos.Aegis.Risk.{
  RiskManager, OrderRequest, approve_order, check_daily_reset, activate_circuit_breaker,
  calculate_safe_position_size, set_open_positions, update_balance,
}
use keryx_talos.Aegis.Risk.Latches.{approve_order_state}
use keryx_talos.Exchange.Paper.{PaperTradingEngine, initialize, execute_market_order}
use keryx_talos.Exchange.Paper.Transactions.{execute_market_order-positions}
use keryx_talos.Exchange.Paper.Empty.{initialize-positions}
use keryx_talos.Oracle.Signals.{TradingSignal}
use keryx_talos.Core.Engine.{
  TradingEngine, truthy, sync_risk, execute_order, approve_and_execute, size_and_execute,
  process_signal, entry_side, free_usdt, order_of,
}

module _ {N : Type 0} {D : Type 0} ⦃num : Number N⦄ ⦃dec : Number D⦄ ⦃conv : Conversion N D⦄ where
  -- No position is open, and the risk manager counts none.
  pub record IsOpenless (e : TradingEngine N D) : Type 0 where
    pub positions_eq : e.paper.database.positions ≡ []
    pub count_eq : e.risk.open_positions ≡ 0

  pub approve_order-open_positions :
      (order : OrderRequest N) (balance : Option N) (now : ℕ) (m : RiskManager N D)
      → (approve_order order balance now m).0.open_positions ≡ m.open_positions
  unfolding activate_circuit_breaker check_daily_reset
  approve_order-open_positions order balance now m =
      ground (arith, approve_order_state order balance now m)

  pub sync_risk-IsOpenless :
      (e : TradingEngine N D) → e.paper.database.positions ≡ [] → IsOpenless (sync_risk e)
  unfolding set_open_positions update_balance
  sync_risk-IsOpenless e h =
      let empty = initialize-positions e.paper ∙ h in
      record { positions_eq = empty; count_eq = ap length empty }

  pub execute_order-IsOpenless :
      (order : OrderRequest N) (e : TradingEngine N D)
      → IsOpenless e
      → IsOpenless (execute_order order e)
  unfolding execute_order
  execute_order-IsOpenless order e w =
      let p : PaperTradingEngine N =
        (execute_market_order order.symbol order.side order.quantity (some order.entry_price)
          e.paper).0 in
      let empty =
        execute_market_order-positions order.symbol order.side order.quantity
          (some order.entry_price) e.paper
        ∙ initialize-positions e.paper
        ∙ w.positions_eq in
      elim (Result-cases
        (execute_market_order order.symbol order.side order.quantity (some order.entry_price)
          e.paper).1) [
            | inl (result, h) ↦
                rw (h, execute_order) (sync_risk-IsOpenless (record e { paper = p }) empty)
            | inr (x, h) ↦
                rw (h, execute_order) record { positions_eq = empty; count_eq = w.count_eq }
          ]

  pub approve_and_execute-IsOpenless :
      (order : OrderRequest N) (now : ℕ) (e : TradingEngine N D)
      → IsOpenless e
      → IsOpenless (approve_and_execute order now e)
  unfolding approve_and_execute
  approve_and_execute-IsOpenless order now e w =
      let balance : Option N = some (free_usdt e.paper) in
      let e₁ : TradingEngine N D = record e { risk = (approve_order order balance now e.risk).0 } in
      let kept : IsOpenless e₁ = record {
        positions_eq = w.positions_eq;
        count_eq = approve_order-open_positions order balance now e.risk ∙ w.count_eq;
      } in
      elim (Result-cases (approve_order order balance now e.risk).1) [
        | inl (approval, h) ↦
            rw (h, approve_and_execute)
              (if_keeps IsOpenless approval.approved (execute_order-IsOpenless order e₁ kept) kept)
        | inr (x, h) ↦ rw (h, approve_and_execute) kept
      ]

  pub size_and_execute-IsOpenless :
      (symbol side : String) (entry : N) (signal : TradingSignal N) (now : ℕ)
      (e : TradingEngine N D)
      → IsOpenless e
      → IsOpenless (size_and_execute symbol side entry signal now e)
  unfolding size_and_execute
  size_and_execute-IsOpenless symbol side entry signal now e w =
      let e₁ : TradingEngine N D = record e { paper = initialize e.paper } in
      let kept : IsOpenless e₁ = record {
        positions_eq = initialize-positions e.paper ∙ w.positions_eq;
        count_eq = w.count_eq;
      } in
      elim (Option-cases (truthy signal.stop_loss)) [
        | inl missing ↦ rw (missing, size_and_execute) kept
        | inr (stop, h) ↦
            elim (Result-cases
              (calculate_safe_position_size entry stop (some (free_usdt e₁.paper)) e₁.risk)) [
                | inr (x, k) ↦ rw (h, k, size_and_execute) kept
                | inl (quantity, k) ↦
                    rw (h, k, size_and_execute)
                      (if_keeps IsOpenless (num.le quantity nought) kept (
                        approve_and_execute-IsOpenless (order_of symbol side quantity entry signal)
                          now e₁ kept))
              ]
      ]

  pub process_signal-IsOpenless :
      (symbol : String) (signal : TradingSignal N) (now : ℕ) (e : TradingEngine N D)
      → IsOpenless e
      → IsOpenless (process_signal symbol signal now e)
  unfolding process_signal
  process_signal-IsOpenless symbol signal now e w =
      elim (Option-cases (truthy signal.entry_price)) [
        | inl missing ↦ rw (missing, process_signal) w
        | inr (entry, h) ↦ elim (Option-cases (entry_side signal.signal_type)) [
          | inl no_entry ↦ rw (h, no_entry, process_signal) w
          | inr (side, k) ↦
              rw (h, k, process_signal)
                (size_and_execute-IsOpenless symbol side entry signal now e w)
        ]
      ]
