-- ===== src/Aegis/Risk/Samples.antt =====
-- A new risk manager and an order that it approves, on which tests run.
use keryx_talos.Base.{ℕ, false, arith, some, ◌∷◌, [], refl}
use keryx_talos.Base.Int.{pos, ℤ}
use keryx_talos.Number.{fixed, fixed_conversion}
use keryx_talos.Aegis.Portfolio.{PortfolioState}
use keryx_talos.Aegis.Profiles.{RiskProfileConfig}
use keryx_talos.Aegis.Guardrails.{
  TradingGuardrails, validate_order, check_exposure, check_risk, check_losses, check_loss,
  check_rates, check_drawdown,
}
use keryx_talos.Aegis.Quant.{position_size, risk_reward_ratio}
use keryx_talos.Aegis.Risk.{RiskManager, OrderRequest}
use keryx_talos.Aegis.Risk.Approval.{Passes}

abbrev pub usd : ℕ → ℤ
usd n = fixed.lit n 0

abbrev pub portfolio : PortfolioState ℤ
portfolio = record {
  total_value = usd 10000;
  cash_available = usd 10000;
  peak_value = usd 10000;
  positions = [];
  daily_starting_value = usd 10000;
  daily_pnl = pos 0;
  trades_today = 0;
  weekly_starting_value = usd 10000;
  weekly_pnl = pos 0;
  trades_this_hour = 0;
  consecutive_losses = 0;
}

abbrev pub limits : TradingGuardrails ℤ
limits = record {
  max_position_size_pct = fixed.lit 10 2;
  max_total_exposure_pct = fixed.lit 50 2;
  min_cash_reserve_pct = fixed.lit 20 2;
  max_loss_per_trade_pct = fixed.lit 2 2;
  max_daily_loss_pct = fixed.lit 5 2;
  max_weekly_loss_pct = fixed.lit 10 2;
  max_total_drawdown_pct = fixed.lit 20 2;
  max_trades_per_hour = 10;
  max_trades_per_day = 50;
  consecutive_losses_halt = 5;
  allowed_symbols = "BTC/USDT" ∷ [];
  allowed_sides = "buy" ∷ "sell" ∷ [];
}

abbrev pub profile : RiskProfileConfig ℤ
profile = record {
  risk_per_trade = fixed.lit 1 2;
  max_daily_drawdown = fixed.lit 5 2;
  max_open_positions = 3;
  min_risk_reward = fixed.lit 15 1;
  atr_multiplier = fixed.lit 20 1;
}

-- A new manager with the balanced profile, on day 0.
abbrev pub m : RiskManager ℤ ℤ
m = record {
  symbols = "BTC/USDT" ∷ [];
  profile = profile;
  guardrails = limits;
  portfolio_state = portfolio;
  initial_balance = usd 10000;
  current_balance = usd 10000;
  daily_starting_balance = usd 10000;
  daily_pnl = pos 0;
  open_positions = 0;
  circuit_breaker_active = false;
  last_reset_date = some 0;
}

abbrev pub order : OrderRequest ℤ
order = record {
  symbol = "BTC/USDT";
  side = "buy";
  quantity = usd 10;
  entry_price = usd 100;
  stop_loss = some (usd 95);
  take_profit = some (usd 110);
}

pub order-Passes : Passes order (usd 10000) m
unfolding validate_order check_exposure check_risk check_losses check_loss check_rates
    check_drawdown position_size risk_reward_ratio
order-Passes = record {
  guardrails_ok = refl;
  breaker_off = refl;
  daily_under = refl;
  total_under = refl;
  room = omega arith;
  symbol_ok = refl;
  size_fits = (refl, refl, refl);
}
