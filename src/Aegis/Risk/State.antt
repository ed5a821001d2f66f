-- ===== src/Aegis/Risk/State.antt =====
-- keryxflow/aegis/risk.py: the rejections, the order, the result and the state of the manager.
use keryx_talos.Base.{String, Bool, ℕ, none, Option, List, some}
use keryx_talos.Base.Dict.{Dict}
use keryx_talos.Aegis.Guardrails.{GuardrailViolation, TradingGuardrails}
use keryx_talos.Aegis.Portfolio.{PortfolioState}
use keryx_talos.Aegis.Profiles.{RiskProfileConfig}

pub data RejectionReason : Type 0 where
  insufficient_balance max_positions_reached daily_drawdown_exceeded : RejectionReason
  risk_too_high poor_risk_reward circuit_breaker_active : RejectionReason
  invalid_order symbol_not_allowed guardrail_violation : RejectionReason

-- `_GUARDRAIL_TO_REJECTION`
abbrev pub rejection_of : GuardrailViolation → RejectionReason
rejection_of GuardrailViolation.position_too_large = risk_too_high
rejection_of GuardrailViolation.total_exposure_exceeded = risk_too_high
rejection_of GuardrailViolation.insufficient_reserve = insufficient_balance
rejection_of GuardrailViolation.daily_loss_exceeded = daily_drawdown_exceeded
rejection_of GuardrailViolation.weekly_loss_exceeded = daily_drawdown_exceeded
rejection_of GuardrailViolation.total_drawdown_exceeded = daily_drawdown_exceeded
rejection_of GuardrailViolation.consecutive_losses_halt = circuit_breaker_active
rejection_of GuardrailViolation.trade_rate_exceeded = circuit_breaker_active
rejection_of GuardrailViolation.symbol_not_allowed = symbol_not_allowed
rejection_of GuardrailViolation.invalid_order_type = invalid_order

-- `_GUARDRAIL_TO_REJECTION.get(violation, RejectionReason.GUARDRAIL_VIOLATION)`
abbrev pub rejection_of? : Option GuardrailViolation → RejectionReason
rejection_of? none = guardrail_violation
rejection_of? (some v) = rejection_of v

pub record OrderRequest (N : Type 0) : Type 0 where
  pub symbol : String
  pub side : String
  pub quantity : N
  pub entry_price : N
  pub stop_loss : Option N
  pub take_profit : Option N

-- Less its two messages.
pub record ApprovalResult (N : Type 0) : Type 0 where
  pub approved : Bool
  pub reason : Option RejectionReason
  pub suggested_quantity : Option N
  pub suggested_stop_loss : Option N

-- `symbols` is `settings.system.symbols`, `guardrails` those of the enforcer.
pub record RiskManager (N D : Type 0) : Type 0 where
  pub symbols : List String
  pub profile : RiskProfileConfig N
  pub guardrails : TradingGuardrails D
  pub portfolio_state : PortfolioState D
  pub initial_balance : N
  pub current_balance : N
  pub daily_starting_balance : N
  pub daily_pnl : N
  pub open_positions : ℕ
  pub circuit_breaker_active : Bool
  pub last_reset_date : Option ℕ

-- A call of a method that changes the manager.
pub data Op (N : Type 0) : Type 0 where
  update_balance : N → Op N
  update_daily_pnl : N → Op N
  set_open_positions : ℕ → Op N
  add_position_to_portfolio : String → String → N → N → Option N → Option N → Op N
  close_position_in_portfolio : String → N → Op N
  update_position_prices : Dict N → Op N
  sync_portfolio_balance : N → Op N
  activate_circuit_breaker : Op N
  deactivate_circuit_breaker : Op N
  approve_order : OrderRequest N → Option N → Op N
