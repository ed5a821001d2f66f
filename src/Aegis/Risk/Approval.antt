-- ===== src/Aegis/Risk/Approval.antt =====
-- Which orders the risk manager approves.
use keryx_talos.Aegis.Guardrails.Limits.{validate_order_allowed}
use keryx_talos.Aegis.Guardrails.{GuardrailCheckResult, member, check_drawdown, allow}
use keryx_talos.Aegis.Profiles.{RiskProfileConfig}
use keryx_talos.Aegis.Risk.Checks.{check_stop}
use keryx_talos.Aegis.Risk.{
  rejection_of?, reject, not, inr, inl, approve_order, daily_drawdown, guardrail_check, balance_or,
  check_daily_reset, check_profile, RiskManager, ℕ, Option, Result, Conversion, approve,
  ApprovalResult, check_balance, check_reward, OrderRequest,
}
use keryx_talos.Base.{inl, inr, if◌then◌else◌, ◌↔◌, ◌<◌, false, some, none, ◌≡◌, true, arith}
use keryx_talos.Base.Result.{Result-cases, Exception, ok, raised}
use keryx_talos.Number.{Number}
use keryx_talos.Aegis.Quant.{RiskRewardResult, PositionSizeResult, position_size, risk_reward_ratio}

module _ {N : Type 0} ⦃num : Number N⦄ where
  open num use {lit, mul, lt, le}

  -- A ratio that reaches the minimum, or one that cannot be computed because the risk is 0.
  abbrev pub RatioFits : RiskProfileConfig N → Result (RiskRewardResult N) → Type 0
  RatioFits profile (ok rr) = lt rr.ratio profile.min_risk_reward ≡ false
  RatioFits profile (raised e) = e ≡ Exception.value_error

  abbrev pub RewardFits : OrderRequest N → RiskProfileConfig N → N → Option N → Type 0
  RewardFits order profile stop_loss none = Unit
  RewardFits order profile stop_loss (some target) =
      RatioFits profile (risk_reward_ratio order.entry_price stop_loss target order.quantity)

  -- A safe size that can be computed, and that the quantity exceeds by no more than a tenth.
  abbrev pub QuantityFits : OrderRequest N → Result (PositionSizeResult N) → Type 0
  QuantityFits order (ok size) = lt (mul size.quantity (lit 11 1)) order.quantity ≡ false
  QuantityFits order (raised e) = ⊥

  -- The order has a stop loss, its quantity fits the size that risks the share of the profile, its
  -- reward fits where it has a target, and the balance pays for it.
  abbrev pub SizeFits : OrderRequest N → N → RiskProfileConfig N → Option N → Type 0
  SizeFits order balance profile none = ⊥
  SizeFits order balance profile (some stop_loss) =
      QuantityFits order (position_size balance order.entry_price stop_loss profile.risk_per_trade)
      × RewardFits order profile stop_loss order.take_profit
      × (lt balance (mul order.quantity order.entry_price) ≡ false)

  check_stop_iff :
      (order : OrderRequest N) (balance : N) (profile : RiskProfileConfig N)
      → (check_stop order balance profile ≡ ok approve)
        ↔ SizeFits order balance profile order.stop_loss
  unfolding check_stop check_reward check_balance
  check_stop_iff order balance profile = ground arith

  check_stop_approved :
      (order : OrderRequest N) (balance : N) (profile : RiskProfileConfig N) (r : ApprovalResult N)
      → check_stop order balance profile ≡ ok r
      → r.approved ≡ true
      → r ≡ approve
  unfolding check_stop check_reward check_balance
  check_stop_approved order balance profile r e a = ground arith

module _ {N : Type 0} {D : Type 0} ⦃num : Number N⦄ ⦃dec : Number D⦄ ⦃conv : Conversion N D⦄ where
  open num use {le}

  -- The manager lets the order pass: the guardrails allow it, the breaker is off, neither drawdown
  -- is at its limit, a position is free, the symbol is allowed and the size fits.
  pub record Passes (order : OrderRequest N) (balance : N) (m : RiskManager N D) : Type 0 where
    pub guardrails_ok : guardrail_check order m ≡ ok allow
    pub breaker_off : m.circuit_breaker_active ≡ false
    pub daily_under : le m.profile.max_daily_drawdown (daily_drawdown m) ≡ false
    pub total_under : (check_drawdown m.guardrails m.portfolio_state).allowed ≡ true
    pub room : m.open_positions < m.profile.max_open_positions
    pub symbol_ok : member order.symbol m.symbols ≡ true
    pub size_fits : SizeFits order balance m.profile order.stop_loss

  -- The day has begun, and the balance is the one given unless that is missing or 0.
  abbrev pub at_call : ℕ → RiskManager N D → RiskManager N D
  at_call now m = check_daily_reset now m

  abbrev pub balance_at : Option N → ℕ → RiskManager N D → N
  balance_at current_balance now m = balance_or current_balance (at_call now m).current_balance

  check_profile_approved :
      (order : OrderRequest N) (balance : N) (m : RiskManager N D) (r : ApprovalResult N)
      → guardrail_check order m ≡ ok allow
      → (check_profile order balance m).1 ≡ ok r
      → r.approved ≡ true
      → ((check_profile order balance m).0 ≡ m) × (r ≡ approve) × Passes order balance m
  unfolding check_profile
  check_profile_approved order balance m r g e a =
      ground (
        arith,
        check_stop_iff order balance m.profile,
        check_stop_approved order balance m.profile r,
      )

  check_profile-Passes :
      (order : OrderRequest N) (balance : N) (m : RiskManager N D)
      → Passes order balance m
      → check_profile order balance m ≡ (m, ok approve)
  unfolding check_profile
  check_profile-Passes order balance m p = ground (arith, check_stop_iff order balance m.profile)

  pub approve_order-eq-ok :
      (order : OrderRequest N) (current_balance : Option N) (now : ℕ) (m : RiskManager N D)
      (g : GuardrailCheckResult)
      → guardrail_check order (at_call now m) ≡ ok g
      → approve_order order current_balance now m ≡ (
          if not g.allowed
          then (at_call now m, ok (reject (rejection_of? g.violation)))
          else check_profile order (balance_at current_balance now m) (at_call now m))
  unfolding approve_order
  approve_order-eq-ok order current_balance now m g e = rw (e, approve_order)

  pub approve_order-eq-raised :
      (order : OrderRequest N) (current_balance : Option N) (now : ℕ) (m : RiskManager N D)
      (e : Exception)
      → guardrail_check order (at_call now m) ≡ raised e
      → approve_order order current_balance now m ≡ (at_call now m, raised e)
  unfolding approve_order
  approve_order-eq-raised order current_balance now m e h = rw (h, approve_order)

  -- An approval leaves the manager as the check of the day left it, carries no reason, and is given
  -- only to an order that passes every check.
  pub approve_order_sound :
      (order : OrderRequest N) (current_balance : Option N) (now : ℕ) (m : RiskManager N D)
      (r : ApprovalResult N)
      → (approve_order order current_balance now m).1 ≡ ok r
      → r.approved ≡ true
      → ((approve_order order current_balance now m).0 ≡ at_call now m)
        × (r ≡ approve)
        × Passes order (balance_at current_balance now m) (at_call now m)
  approve_order_sound order current_balance now m r e a =
      let m₁ = at_call now m in
      let balance = balance_at current_balance now m in
      elim (Result-cases (guardrail_check order m₁)) [
        | inl (g, h) ↦ ground (
          arith,
          approve_order-eq-ok order current_balance now m g h,
          validate_order_allowed m₁.guardrails m₁.symbols order.symbol order.side order.quantity
              order.entry_price order.stop_loss m₁.portfolio_state g h,
          check_stop_approved order balance m₁.profile r,
          check_profile_approved order balance m₁ r,
        )
        | inr (x, h) ↦ ground (arith, approve_order-eq-raised order current_balance now m x h)
      ]

  -- An order that passes every check is approved.
  pub approve_order_complete :
      (order : OrderRequest N) (current_balance : Option N) (now : ℕ) (m : RiskManager N D)
      → Passes order (balance_at current_balance now m) (at_call now m)
      → approve_order order current_balance now m ≡ (at_call now m, ok approve)
  unfolding approve_order
  approve_order_complete order current_balance now m p =
      rw (p.guardrails_ok, approve_order)
        (check_profile-Passes order (balance_at current_balance now m) (at_call now m) p)
