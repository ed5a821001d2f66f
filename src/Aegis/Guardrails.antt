-- ===== src/Aegis/Guardrails.antt =====
-- keryxflow/aegis/guardrails.py: `GuardrailEnforcer`. `settings.system.symbols` is an argument. Of a
-- result the flag and the violation are kept; its message and details are for display.
pub mod Limits
mod Tests
mod State
pub use State.*
use keryx_talos.Base.{
  ◌<◌, inr, Bool, Side, if_keeps, All-keep, map, Bool-cases, none, zero, is_some, inl, suc, buy,
  ltb, subst, ◌++◌, [], le→leb, lt→ltb, ◌==◌, arith, str_eq, leb, if◌then◌else◌, String, false,
  Option, not, true, ◌&&◌, ◌||◌, some, ◌∷◌, Option-cases, ◌^◌, ◌*◌, ◌-◌, ◌≡◌, sell, ◌≢◌, All,
  All-append, ◌≤◌, ap, max, ◌↔◌, List, eq_refl, ◌%◌, ℕ, ◌+◌, refl, ◌⊎◌, ◌∙◌, keep, length-append,
  ◌/◌, eq_iff, sym, leb→le, length, get_elem?,
}
use keryx_talos.Base.Result.{Result, ok, raised, zero_division_error, ◌>>=◌, or_raise}
use keryx_talos.Number.{Number, Conversion, nought, divide}
use keryx_talos.Aegis.Portfolio.{PortfolioState, total_exposure, total_risk_at_stop}

abbrev pub member : String → List String → Bool
member x [] = false
member x (y ∷ ys) = str_eq x y || member x ys

-- `tuple(a) or b`
abbrev pub or_else : List String → List String → List String
or_else [] b = b
or_else (x ∷ xs) b = x ∷ xs

abbrev pub allow : GuardrailCheckResult
allow = record { allowed = true; violation = none }

abbrev pub block : GuardrailViolation → GuardrailCheckResult
block v = record { allowed = false; violation = some v }

module _ {D : Type 0} ⦃dec : Number D⦄ where
  open dec use {lit, add, sub, mul, quot, abs, lt, le}

  -- The defaults of the frozen dataclass.
  unfoldable pub default_guardrails : TradingGuardrails D
  default_guardrails = record {
    max_position_size_pct = lit 10 2;
    max_total_exposure_pct = lit 50 2;
    min_cash_reserve_pct = lit 20 2;
    max_loss_per_trade_pct = lit 2 2;
    max_daily_loss_pct = lit 5 2;
    max_weekly_loss_pct = lit 10 2;
    max_total_drawdown_pct = lit 20 2;
    max_trades_per_hour = 10;
    max_trades_per_day = 50;
    consecutive_losses_halt = 5;
    allowed_symbols = "BTC/USDT" ∷ "ETH/USDT" ∷ "SOL/USDT" ∷ [];
    allowed_sides = "buy" ∷ "sell" ∷ [];
  }

  -- The last checks of `validate_order`: consecutive losses and trade rates.
  unfoldable pub check_rates : TradingGuardrails D → PortfolioState D → GuardrailCheckResult
  check_rates g p =
      if leb g.consecutive_losses_halt p.consecutive_losses
      then block consecutive_losses_halt
      else if leb g.max_trades_per_day p.trades_today
      then block trade_rate_exceeded
      else if leb g.max_trades_per_hour p.trades_this_hour
      then block trade_rate_exceeded
      else allow

  -- A loss of a period against its limit: `abs(pnl) / starting_value` is computed, and may divide by
  -- zero, only if there is a loss.
  unfoldable pub check_loss :
      D → D → D → GuardrailViolation → Result GuardrailCheckResult → Result GuardrailCheckResult
  check_loss pnl starting_value limit v next =
      if lt pnl nought
      then (or_raise (divide (abs pnl) starting_value) zero_division_error >>= λ loss_pct.
          if le limit loss_pct then ok (block v) else next)
      else next

  -- From the daily loss on.
  unfoldable pub check_losses : TradingGuardrails D → PortfolioState D → Result GuardrailCheckResult
  check_losses g p =
      check_loss p.daily_pnl p.daily_starting_value g.max_daily_loss_pct daily_loss_exceeded (
        check_loss p.weekly_pnl p.weekly_starting_value g.max_weekly_loss_pct weekly_loss_exceeded
          (ok (check_rates g p)))

  -- The risk of the trade and of all stops, if there is a stop loss.
  unfoldable pub check_risk :
      TradingGuardrails D → PortfolioState D → D → D → Option D → Result GuardrailCheckResult
  check_risk g p quantity entry_price none = check_losses g p
  check_risk g p quantity entry_price (some stop) =
      let trade_risk = mul (abs (sub entry_price stop)) quantity in
      if lt g.max_loss_per_trade_pct (quot trade_risk p.total_value)
      then ok (block daily_loss_exceeded)
      else if lt g.max_daily_loss_pct (quot (add (total_risk_at_stop p) trade_risk) p.total_value)
      then ok (block daily_loss_exceeded)
      else check_losses g p

  -- From the size of the position on.
  unfoldable pub check_exposure :
      TradingGuardrails D → PortfolioState D → D → D → Option D → Result GuardrailCheckResult
  check_exposure g p quantity entry_price stop_loss =
      let position_value = mul quantity entry_price in
      if le p.total_value nought
      then ok (block insufficient_reserve)
      else if lt g.max_position_size_pct (quot position_value p.total_value)
      then ok (block position_too_large)
      else if lt g.max_total_exposure_pct
          (quot (add (total_exposure p) position_value) p.total_value)
      then ok (block total_exposure_exceeded)
      else if lt (quot (sub p.cash_available position_value) p.total_value) g.min_cash_reserve_pct
      then ok (block insufficient_reserve)
      else check_risk g p quantity entry_price stop_loss

  unfoldable pub check_drawdown : TradingGuardrails D → PortfolioState D → GuardrailCheckResult
  check_drawdown g p =
      if lt nought p.peak_value
        && le g.max_total_drawdown_pct (quot (sub p.peak_value p.total_value) p.peak_value)
      then block total_drawdown_exceeded
      else allow

  module _ {N : Type 0} ⦃conv : Conversion N D⦄ where
    open conv use {decimal}

    abbrev pub decimal? : Option N → Option D
    decimal? none = none
    decimal? (some x) = some (decimal x)

    unfoldable pub validate_order :
        TradingGuardrails D
        → List String
        → String
        → String
        → N
        → N
        → Option N
        → PortfolioState D
        → Result GuardrailCheckResult
    validate_order g symbols symbol side quantity entry_price stop_loss p =
        if not (member symbol (or_else symbols g.allowed_symbols))
        then ok (block symbol_not_allowed)
        else if not (member side g.allowed_sides)
        then ok (block invalid_order_type)
        else check_exposure g p (decimal quantity) (decimal entry_price) (decimal? stop_loss)
