-- ===== src/Aegis/Risk/Latches.antt =====
-- What keeps the risk manager from approving, and for how long.
use keryx_talos.Aegis.Guardrails.{check_drawdown, allow}
use keryx_talos.Aegis.Risk.Approval.{
  approve_order-eq-raised, approve_order-eq-ok, approve_order_sound, at_call, balance_at, Passes,
}
use keryx_talos.Aegis.Risk.{
  daily_drawdown_exceeded, reject, daily_drawdown, guardrail_check, approve_order,
  activate_circuit_breaker, RiskManager, Op, check_daily_reset, check_profile, OrderRequest,
  ApprovalResult,
}
use keryx_talos.Base.{inl, ◌≡◌, Bool-cases, false, ap, ◌⊎◌, true, ℕ, inr, arith, Option}
use keryx_talos.Base.Result.{Result, ok, raised, Result-cases}
use keryx_talos.Number.{Number, Conversion}

abbrev pub NotApproved : {N : Type 0} → Result (ApprovalResult N) → Type 0
NotApproved (ok r) = r.approved ≡ false
NotApproved (raised e) = Unit

-- No call but `deactivate_circuit_breaker`.
abbrev pub KeepsBreaker : {N : Type 0} → Op N → Type 0
KeepsBreaker Op.deactivate_circuit_breaker = ⊥
KeepsBreaker _ = Unit

module _ {N : Type 0} {D : Type 0} ⦃num : Number N⦄ ⦃dec : Number D⦄ ⦃conv : Conversion N D⦄ where
  open num use {le}

  -- Without the approval that `approve_order_sound` speaks of, there is none.
  pub NotApproved-of_not_Passes :
      (order : OrderRequest N) (current_balance : Option N) (now : ℕ) (m : RiskManager N D)
      → ¬ Passes order (balance_at current_balance now m) (at_call now m)
      → NotApproved (approve_order order current_balance now m).1
  NotApproved-of_not_Passes order current_balance now m fails =
      elim (Result-cases (approve_order order current_balance now m).1) [
        | inl (r, e) ↦ rw e (elim (Bool-cases r.approved) [
          | inl yes' ↦ absurd (fails (approve_order_sound order current_balance now m r e yes').2)
          | inr no' ↦ no'
        ])
        | inr (x, e) ↦ rw e tt
      ]

  check_profile_state :
      (order : OrderRequest N) (balance : N) (m : RiskManager N D)
      → ((check_profile order balance m).0 ≡ m)
        ⊎ ((check_profile order balance m).0 ≡ activate_circuit_breaker m)
  unfolding check_profile
  check_profile_state order balance m = ground arith

  -- What a call of `approve_order` leaves of the manager.
  pub approve_order_state :
      (order : OrderRequest N) (current_balance : Option N) (now : ℕ) (m : RiskManager N D)
      → ((approve_order order current_balance now m).0 ≡ at_call now m)
        ⊎ ((approve_order order current_balance now m).0 ≡ activate_circuit_breaker (at_call now m))
  approve_order_state order current_balance now m =
      elim (Result-cases (guardrail_check order (at_call now m))) [
        | inl (g, h) ↦ ground (
          arith,
          approve_order-eq-ok order current_balance now m g h,
          check_profile_state order (balance_at current_balance now m) (at_call now m),
        )
        | inr (x, h) ↦ inl (ap (λ t. t.0) (approve_order-eq-raised order current_balance now m x h))
      ]

  -- An order that the guardrails allow, at a daily or a total drawdown that has reached its limit,
  -- is rejected and turns the circuit breaker on, where it was off.
  pub drawdown_trips :
      (order : OrderRequest N) (current_balance : Option N) (now : ℕ) (m : RiskManager N D)
      → guardrail_check order (at_call now m) ≡ ok allow
      → (at_call now m).circuit_breaker_active ≡ false
      → (le m.profile.max_daily_drawdown (daily_drawdown (at_call now m)) ≡ true)
        ⊎ ((check_drawdown m.guardrails (at_call now m).portfolio_state).allowed ≡ false)
      → approve_order order current_balance now m
        ≡ (activate_circuit_breaker (at_call now m), ok (reject daily_drawdown_exceeded))
  unfolding check_profile check_daily_reset
  drawdown_trips order current_balance now m g off d =
      ground (arith, approve_order-eq-ok order current_balance now m allow g)
