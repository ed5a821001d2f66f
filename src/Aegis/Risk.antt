-- ===== src/Aegis/Risk.antt =====
-- keryxflow/aegis/risk.py: `class RiskManager`, over the floats `N` and the decimals `D`. A method
-- returns the new manager. `now` is the time of the call.
mod State
mod Checks
pub mod Approval
pub mod Latches
pub mod Rates
pub mod Profit
pub mod Samples
mod Tests
pub use State.*
unfoldable pub use Checks.*
use keryx_talos.Base.{
  subst, max, ◌/◌, zero, str_eq, ◌∙◌, if◌then◌else◌, date_of, inr, inl, ◌++◌, All-append,
  microseconds_per_minute, some, microseconds_per_second, keep, ◌≢◌, not, Option, true, arith, ◌==◌,
  ◌^◌, get_elem?, ◌||◌, ◌≤◌, ◌-◌, ◌≡◌, List, ◌↔◌, Option-cases, same_date, ℕ, sym, eq_refl, ◌+◌,
  ◌*◌, [], refl, if_keeps, All, buy, All-keep, leb, none, ◌⊎◌, eq_iff, is_some, le→leb, ◌%◌, ◌<◌,
  ltb, String, ap, sell, microseconds_per_day, false, Bool-cases, Bool, length, Side, map, suc,
  length-append, ◌&&◌, ◌∷◌, lt→ltb, leb→le,
}
use keryx_talos.Base.Dict.{Dict}
use keryx_talos.Base.Result.{Exception, Result, ok, raised, ◌>>=◌}
use keryx_talos.Number.{Number, Conversion, nought, is_nonzero}
use keryx_talos.Aegis.Guardrails.{
  member, GuardrailCheckResult, default_guardrails, validate_order, check_drawdown,
  TradingGuardrails,
}
use keryx_talos.Aegis.Portfolio.{
  PortfolioState, PositionState, add_position, close_position, update_prices,
  create_portfolio_state, reset_daily, position_count,
}
use keryx_talos.Aegis.Profiles.{RiskProfile, get_risk_profile}
use keryx_talos.Aegis.Quant.{
  PositionSizeResult, RiskRewardResult, position_size, fixed_percentage_stop, risk_reward_ratio,
}

module _ {N : Type 0} {D : Type 0} ⦃num : Number N⦄ ⦃dec : Number D⦄ ⦃conv : Conversion N D⦄ where
  open num use {lit, add, mul, quot, neg, lt, le}
  open conv use {decimal, float}

  pub new : List String → RiskProfile → N → RiskManager N D
  unfolding get_risk_profile default_guardrails
  new symbols risk_profile initial_balance = record {
    symbols = symbols;
    profile = get_risk_profile risk_profile;
    guardrails = default_guardrails;
    portfolio_state = create_portfolio_state initial_balance;
    initial_balance = initial_balance;
    current_balance = initial_balance;
    daily_starting_balance = initial_balance;
    daily_pnl = nought;
    open_positions = 0;
    circuit_breaker_active = false;
    last_reset_date = none;
  }

  -- The manager of the process, `none` before the first call, and the manager that is returned.
  abbrev pub get_risk_manager :
      Option (RiskManager N D) → List String → RiskProfile → N → RiskManager N D
  get_risk_manager none symbols risk_profile initial_balance =
      new symbols risk_profile initial_balance
  get_risk_manager (some m) symbols risk_profile initial_balance = m

  -- `_check_daily_reset`
  unfoldable pub check_daily_reset : ℕ → RiskManager N D → RiskManager N D
  check_daily_reset now m = if same_date m.last_reset_date (date_of now) then m else record m {
    daily_starting_balance = m.current_balance;
    daily_pnl = nought;
    last_reset_date = some (date_of now);
    portfolio_state = reset_daily m.portfolio_state;
  }

  unfoldable pub update_balance : N → RiskManager N D → RiskManager N D
  update_balance balance m = record m { current_balance = balance }

  unfoldable pub update_daily_pnl : N → ℕ → RiskManager N D → RiskManager N D
  update_daily_pnl pnl now m = check_daily_reset now (record m { daily_pnl = pnl })

  unfoldable pub set_open_positions : ℕ → RiskManager N D → RiskManager N D
  set_open_positions count m = record m { open_positions = count }

  -- `Decimal(str(x)) if x else None`
  abbrev pub decimal_if : Option N → Option D
  decimal_if none = none
  decimal_if (some x) = if is_nonzero x then some (decimal x) else none

  abbrev pub position_of : String → String → N → N → Option N → Option N → PositionState D
  position_of symbol side quantity entry_price stop_loss take_profit = record {
    symbol = symbol;
    side = side;
    quantity = decimal quantity;
    entry_price = decimal entry_price;
    current_price = decimal entry_price;
    stop_loss = decimal_if stop_loss;
    take_profit = decimal_if take_profit;
  }

  abbrev with_portfolio : PortfolioState D → RiskManager N D → RiskManager N D
  with_portfolio p m = record m { portfolio_state = p; open_positions = position_count p }

  unfoldable pub add_position_to_portfolio :
      String → String → N → N → Option N → Option N → RiskManager N D → RiskManager N D
  add_position_to_portfolio symbol side quantity entry_price stop_loss take_profit m =
      with_portfolio
        (add_position (position_of symbol side quantity entry_price stop_loss take_profit)
          m.portfolio_state)
        m

  -- The profit is returned only if it is not 0, but counted in any case.
  pub close_position_in_portfolio : String → N → RiskManager N D → RiskManager N D × Option N
  close_position_in_portfolio symbol exit_price m =
      let (p, result) = close_position symbol exit_price m.portfolio_state in
      let m₁ = with_portfolio p m in
      elim result [
        | none ↦ (m₁, none)
        | some r ↦ (
          record m₁ { daily_pnl = add m₁.daily_pnl (float r) },
          if is_nonzero ⦃num = dec⦄ r then some (float r) else none,
        )
      ]

  pub update_position_prices : Dict N → RiskManager N D → RiskManager N D
  update_position_prices prices m = record m {
    portfolio_state = update_prices prices m.portfolio_state;
  }

  pub sync_portfolio_balance : N → RiskManager N D → RiskManager N D
  sync_portfolio_balance balance m =
      let m₁ = record m { current_balance = balance } in
      if position_count m₁.portfolio_state == 0
      then record m₁ {
        portfolio_state = record (m₁.portfolio_state) {
          total_value = decimal balance;
          cash_available = decimal balance;
        };
      }
      else m₁

  abbrev pub daily_drawdown : RiskManager N D → N
  daily_drawdown m =
      if le m.daily_starting_balance nought
      then nought
      else quot (neg m.daily_pnl) m.daily_starting_balance

  unfoldable pub activate_circuit_breaker : RiskManager N D → RiskManager N D
  activate_circuit_breaker m = record m { circuit_breaker_active = true }

  pub deactivate_circuit_breaker : RiskManager N D → RiskManager N D
  deactivate_circuit_breaker m = record m { circuit_breaker_active = false }

  -- The limits of the risk profile. The two drawdown checks activate the circuit breaker.
  unfoldable pub check_profile :
      OrderRequest N → N → RiskManager N D → RiskManager N D × Result (ApprovalResult N)
  check_profile order balance m =
      if m.circuit_breaker_active
      then (m, ok (reject circuit_breaker_active))
      else if le m.profile.max_daily_drawdown (daily_drawdown m)
      then (activate_circuit_breaker m, ok (reject daily_drawdown_exceeded))
      else if not (check_drawdown m.guardrails m.portfolio_state).allowed
      then (activate_circuit_breaker m, ok (reject daily_drawdown_exceeded))
      else if leb m.profile.max_open_positions m.open_positions
      then (m, ok (reject max_positions_reached))
      else if not (member order.symbol m.symbols)
      then (m, ok (reject symbol_not_allowed))
      else (m, check_stop order balance m.profile)

  abbrev pub guardrail_check : OrderRequest N → RiskManager N D → Result GuardrailCheckResult
  guardrail_check order m =
      validate_order m.guardrails m.symbols order.symbol order.side order.quantity order.entry_price
        order.stop_loss m.portfolio_state

  unfoldable pub approve_order :
      OrderRequest N → Option N → ℕ → RiskManager N D → RiskManager N D × Result (ApprovalResult N)
  approve_order order current_balance now m =
      let m₁ = check_daily_reset now m in
      elim (guardrail_check order m₁) [
        | raised e ↦ (m₁, raised e)
        | ok r ↦
            if not r.allowed
            then (m₁, ok (reject (rejection_of? r.violation)))
            else check_profile order (balance_or current_balance m₁.current_balance) m₁
      ]

  unfoldable pub calculate_safe_position_size : N → N → Option N → RiskManager N D → Result N
  calculate_safe_position_size entry_price stop_loss balance m =
      position_size (balance_or balance m.current_balance) entry_price stop_loss
        m.profile.risk_per_trade
      >>= λ result. ok result.quantity

  abbrev pub apply : Op N → ℕ → RiskManager N D → RiskManager N D
  apply (Op.update_balance balance) now m = update_balance balance m
  apply (Op.update_daily_pnl pnl) now m = update_daily_pnl pnl now m
  apply (Op.set_open_positions count) now m = set_open_positions count m
  apply (Op.add_position_to_portfolio symbol side quantity entry stop take) now m =
      add_position_to_portfolio symbol side quantity entry stop take m
  apply (Op.close_position_in_portfolio symbol exit) now m =
      (close_position_in_portfolio symbol exit m).0
  apply (Op.update_position_prices prices) now m = update_position_prices prices m
  apply (Op.sync_portfolio_balance balance) now m = sync_portfolio_balance balance m
  apply Op.activate_circuit_breaker now m = activate_circuit_breaker m
  apply Op.deactivate_circuit_breaker now m = deactivate_circuit_breaker m
  apply (Op.approve_order order current_balance) now m =
      (approve_order order current_balance now m).0

  pub run : List (ℕ × Op N) → RiskManager N D → RiskManager N D
  run [] m = m
  run ((now, op) ∷ ops) m = run ops (apply op now m)
