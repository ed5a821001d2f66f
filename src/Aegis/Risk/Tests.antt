-- ===== src/Aegis/Risk/Tests.antt =====
-- Runs of the risk manager, and its theorems at an input.
use keryx_talos.Aegis.Risk.Rates.{hour_never_ends}
use keryx_talos.Aegis.Risk.Profit.{add_close_profit}
use keryx_talos.Aegis.Risk.Approval.{approve_order_sound, Passes, approve_order_complete}
use keryx_talos.Aegis.Risk.Latches.{NotApproved}
use keryx_talos.Aegis.Portfolio.{find_position, create_portfolio_state}
use keryx_talos.Aegis.Risk.Checks.{approve}
use keryx_talos.Base.Result.{ok}
use keryx_talos.Aegis.Profiles.{balanced, get_risk_profile}
use keryx_talos.Aegis.Guardrails.{default_guardrails}
use keryx_talos.Base.Int.{ℤ}
use keryx_talos.Aegis.Risk.{
  close_position_in_portfolio, Op, run, add_position_to_portfolio, check_daily_reset, approve_order,
  new, RiskManager,
}
use keryx_talos.Base.{arith, ap, microseconds_per_day, ◌*◌, refl, [], none, ◌≡◌, ◌∷◌}
use keryx_talos.Aegis.Risk.Samples.{usd, portfolio, limits, m, order, order-Passes}
use keryx_talos.Number.{fixed, fixed_conversion}

m_is_new :
    record m {
      last_reset_date = none;
      guardrails = record limits { allowed_symbols = "BTC/USDT" ∷ "ETH/USDT" ∷ "SOL/USDT" ∷ [] };
    }
    ≡ new ("BTC/USDT" ∷ []) balanced (usd 10000)
unfolding new default_guardrails get_risk_profile create_portfolio_state
m_is_new = refl

approve_order_complete_example : approve_order order none 5 m ≡ (m, ok approve)
unfolding check_daily_reset
approve_order_complete_example = approve_order_complete order none 5 m order-Passes

approve_order_sound_example : Passes order (usd 10000) m
unfolding check_daily_reset
approve_order_sound_example =
    (approve_order_sound order none 5 m approve (ap (λ t. t.1) approve_order_complete_example)
      refl).2

abbrev losing : RiskManager ℤ ℤ
losing = record m { daily_pnl = fixed.neg (usd 600) }

abbrev busy : RiskManager ℤ ℤ
busy = record m { portfolio_state = record portfolio { trades_this_hour = 10 } }

hour_never_ends_example :
    NotApproved
      (approve_order order none
        (9 * microseconds_per_day)
        (run ((2 * microseconds_per_day, Op.update_daily_pnl (usd 1)) ∷ []) busy)).1
hour_never_ends_example =
    hour_never_ends ((2 * microseconds_per_day, Op.update_daily_pnl (usd 1)) ∷ []) busy order none
      (9 * microseconds_per_day) (omega arith)

-- Bought at 100 and sold at 90, ten units lose 100; the manager counts a profit of 100.
add_close_profit_example :
    let m₁ = add_position_to_portfolio "BTC/USDT" "buy" (usd 10) (usd 100) none none m in
    (close_position_in_portfolio "BTC/USDT" (usd 90) m₁).0.daily_pnl ≡ usd 100
unfolding find_position
add_close_profit_example =
    (add_close_profit "BTC/USDT" "buy" (usd 10) (usd 100) (usd 90) none none m refl).0
