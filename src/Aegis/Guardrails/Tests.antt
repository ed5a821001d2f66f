-- ===== src/Aegis/Guardrails/Tests.antt =====
-- Orders against the default guardrails.
use keryx_talos.Aegis.Guardrails.Limits.{validate_order_iff, MayTrade, Fits}
use keryx_talos.Base.Int.{negsuc, pos, ℤ}
use keryx_talos.Base.Result.{zero_division_error, raised, ok}
use keryx_talos.Aegis.Portfolio.{PortfolioState}
use keryx_talos.Aegis.Guardrails.{
  trade_rate_exceeded, position_too_large, block, check_rates, check_loss, member, check_losses,
  allow, check_risk, check_exposure, default_guardrails, validate_order, TradingGuardrails,
}
use keryx_talos.Base.{refl, true, ◌↔◌, ℕ, none, some, [], ◌≡◌}
use keryx_talos.Number.{fixed, fixed_conversion}

abbrev limits : TradingGuardrails ℤ
limits = default_guardrails

abbrev rich : PortfolioState ℤ
rich = record {
  total_value = fixed.lit 10000 0;
  cash_available = fixed.lit 10000 0;
  peak_value = fixed.lit 10000 0;
  positions = [];
  daily_starting_value = fixed.lit 10000 0;
  daily_pnl = pos 0;
  trades_today = 0;
  weekly_starting_value = fixed.lit 10000 0;
  weekly_pnl = pos 0;
  trades_this_hour = 0;
  consecutive_losses = 0;
}

-- A tenth of the portfolio passes, more does not; an 11th trade in the hour does not.
verdicts :
    let check = λ (q : ℕ) (p : PortfolioState ℤ).
      validate_order limits [] "BTC/USDT" "buy"
        (fixed.lit q 0)
        (fixed.lit 100 0)
        (some (fixed.lit 98 0))
        p in
    (check 10 rich ≡ ok allow)
    × (check 11 rich ≡ ok (block position_too_large))
    × (check 10 (record rich { trades_this_hour = 10 }) ≡ ok (block trade_rate_exceeded))
    × (check 10 (record rich { daily_pnl = negsuc 0; daily_starting_value = pos 0 })
        ≡ raised zero_division_error)
unfolding validate_order default_guardrails check_exposure check_risk check_losses check_loss
    check_rates
verdicts = (refl, refl, refl, refl)

validate_order_iff_example :
    (validate_order limits [] "BTC/USDT" "buy" (fixed.lit 10 0) (fixed.lit 100 0) none rich
      ≡ ok allow)
    ↔ ((member "BTC/USDT" limits.allowed_symbols ≡ true)
        × (member "buy" limits.allowed_sides ≡ true)
        × Fits limits rich (fixed.lit 10 0) (fixed.lit 100 0)
        × Unit {0}
        × MayTrade limits rich)
unfolding default_guardrails
validate_order_iff_example =
    validate_order_iff limits [] "BTC/USDT" "buy" (fixed.lit 10 0) (fixed.lit 100 0) none rich
