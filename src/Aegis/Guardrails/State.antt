-- ===== src/Aegis/Guardrails/State.antt =====
-- keryxflow/aegis/guardrails.py: the violations, the limits and the result of a check.
use keryx_talos.Base.{List, ℕ, Bool, Option, String}

pub data GuardrailViolation : Type 0 where
  position_too_large total_exposure_exceeded insufficient_reserve : GuardrailViolation
  daily_loss_exceeded weekly_loss_exceeded total_drawdown_exceeded : GuardrailViolation
  consecutive_losses_halt trade_rate_exceeded symbol_not_allowed : GuardrailViolation
  invalid_order_type : GuardrailViolation

pub record TradingGuardrails (D : Type 0) : Type 0 where
  pub max_position_size_pct : D
  pub max_total_exposure_pct : D
  pub min_cash_reserve_pct : D
  pub max_loss_per_trade_pct : D
  pub max_daily_loss_pct : D
  pub max_weekly_loss_pct : D
  pub max_total_drawdown_pct : D
  pub max_trades_per_hour : ℕ
  pub max_trades_per_day : ℕ
  pub consecutive_losses_halt : ℕ
  pub allowed_symbols : List String
  pub allowed_sides : List String

pub record GuardrailCheckResult : Type 0 where
  pub allowed : Bool
  pub violation : Option GuardrailViolation
