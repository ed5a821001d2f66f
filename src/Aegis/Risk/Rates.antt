-- ===== src/Aegis/Risk/Rates.antt =====
-- keryxflow/aegis/risk.py: the counter of trades in the hour.
use keryx_talos.Aegis.Portfolio.Trades.{
  trades-update_prices, trades-close_position, trades-add_position, trades-reset_daily,
}
use keryx_talos.Aegis.Guardrails.Limits.{validate_order_iff}
use keryx_talos.Aegis.Guardrails.{allow}
use keryx_talos.Aegis.Risk.Approval.{at_call}
use keryx_talos.Aegis.Risk.Latches.{approve_order_state, NotApproved-of_not_Passes, NotApproved}
use keryx_talos.Aegis.Risk.{
  position_of, apply, deactivate_circuit_breaker, activate_circuit_breaker, sync_portfolio_balance,
  update_position_prices, close_position_in_portfolio, add_position_to_portfolio, approve_order,
  set_open_positions, guardrail_check, update_daily_pnl, OrderRequest, RiskManager,
  check_daily_reset, run, Op, update_balance,
}
use keryx_talos.Base.{◌≤◌, List, refl, Option, ◌≢◌, arith, ℕ, ◌∷◌, ◌≡◌, []}
use keryx_talos.Base.Result.{ok}
use keryx_talos.Number.{Number, Conversion}

module _ {N : Type 0} {D : Type 0} ⦃num : Number N⦄ ⦃dec : Number D⦄ ⦃conv : Conversion N D⦄ where
  -- The hour's trades have reached their limit.
  pub record HourFull (limit : ℕ) (m : RiskManager N D) : Type 0 where
    pub limit_eq : m.guardrails.max_trades_per_hour ≡ limit
    pub full : limit ≤ m.portfolio_state.trades_this_hour

  apply-HourFull :
      (limit : ℕ) (op : Op N) (now : ℕ) (m : RiskManager N D)
      → HourFull limit m
      → HourFull limit (apply op now m)
  unfolding update_balance update_daily_pnl check_daily_reset set_open_positions
      add_position_to_portfolio close_position_in_portfolio update_position_prices
      sync_portfolio_balance activate_circuit_breaker deactivate_circuit_breaker
  apply-HourFull limit (Op.approve_order order current_balance) now m h =
      ground (
        arith,
        approve_order_state order current_balance now m,
        trades-reset_daily m.portfolio_state,
      )
  apply-HourFull limit (Op.add_position_to_portfolio symbol side quantity entry stop take) now m h =
      ground (
        arith,
        trades-add_position (position_of symbol side quantity entry stop take) m.portfolio_state,
      )
  apply-HourFull limit (Op.close_position_in_portfolio symbol exit) now m h =
      ground (arith, trades-close_position symbol exit m.portfolio_state)
  apply-HourFull limit (Op.update_position_prices prices) now m h =
      ground (arith, trades-update_prices prices m.portfolio_state)
  apply-HourFull limit (Op.update_daily_pnl pnl) now m h =
      ground (arith, trades-reset_daily m.portfolio_state)
  apply-HourFull limit _ now m h = ground arith

  HourFull-blocks :
      (limit : ℕ) (order : OrderRequest N) (now : ℕ) (m : RiskManager N D)
      → HourFull limit m
      → guardrail_check order (at_call now m) ≢ ok allow
  unfolding check_daily_reset
  HourFull-blocks limit order now m h g =
      let m₁ = at_call now m in
      let v =
        (validate_order_iff m₁.guardrails m₁.symbols order.symbol order.side order.quantity
            order.entry_price order.stop_loss m₁.portfolio_state).0
          g in
      let may = v.4 in ground (arith, may.this_hour, trades-reset_daily m.portfolio_state)

  run-HourFull :
      (limit : ℕ) (ops : List (ℕ × Op N)) (m : RiskManager N D)
      → HourFull limit m
      → HourFull limit (run ops m)
  unfolding run
  run-HourFull limit [] m h = h
  run-HourFull limit ((now, op) ∷ ops) m h =
      run-HourFull limit ops _ (apply-HourFull limit op now m h)

  -- Once the trades of the hour have reached their limit, no order is ever approved again, after any
  -- calls at any later times.
  pub hour_never_ends :
      (ops : List (ℕ × Op N)) (m : RiskManager N D) (order : OrderRequest N)
      (current_balance : Option N) (now : ℕ)
      → m.guardrails.max_trades_per_hour ≤ m.portfolio_state.trades_this_hour
      → NotApproved (approve_order order current_balance now (run ops m)).1
  hour_never_ends ops m order current_balance now h =
      let limit = m.guardrails.max_trades_per_hour in
      let full = run-HourFull limit ops m (record { limit_eq = refl; full = h }) in
      NotApproved-of_not_Passes order current_balance now (run ops m)
        (λ p. HourFull-blocks limit order now (run ops m) full p.guardrails_ok)
