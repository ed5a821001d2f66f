-- ===== src/Aegis/Risk/Checks.antt =====
-- keryxflow/aegis/risk.py: the checks of `approve_order` that end it without touching the manager.
use keryx_talos.Base.{if◌then◌else◌, none, false, true, some, Option}
use keryx_talos.Base.Result.{Result, Exception, ok, raised}
use keryx_talos.Number.{Number, is_nonzero}
use keryx_talos.Aegis.Profiles.{RiskProfileConfig}
use keryx_talos.Aegis.Quant.{position_size, fixed_percentage_stop, risk_reward_ratio}
use keryx_talos.Aegis.Risk.State.{
  RejectionReason, OrderRequest, ApprovalResult, insufficient_balance, poor_risk_reward,
  risk_too_high, invalid_order,
}

module _ {N : Type 0} where
  abbrev pub reject : RejectionReason → ApprovalResult N
  reject reason = record {
    approved = false;
    reason = some reason;
    suggested_quantity = none;
    suggested_stop_loss = none;
  }

  abbrev pub approve : ApprovalResult N
  approve = record {
    approved = true;
    reason = none;
    suggested_quantity = none;
    suggested_stop_loss = none;
  }

module _ {N : Type 0} ⦃num : Number N⦄ where
  open num use {lit, mul, lt}

  -- `current_balance or self._current_balance`
  abbrev pub balance_or : Option N → N → N
  balance_or none tracked = tracked
  balance_or (some x) tracked = if is_nonzero x then x else tracked

  -- The last check of `approve_order`.
  unfoldable pub check_balance : OrderRequest N → N → ApprovalResult N
  check_balance order balance =
      if lt balance (mul order.quantity order.entry_price)
      then reject insufficient_balance
      else approve

  -- The check of risk and reward. A `ValueError` of it is only logged.
  unfoldable pub check_reward :
      OrderRequest N → N → N → RiskProfileConfig N → Result (ApprovalResult N)
  check_reward order stop_loss balance profile = elim order.take_profit [
    | none ↦ ok (check_balance order balance)
    | some take_profit ↦
        elim (risk_reward_ratio order.entry_price stop_loss take_profit order.quantity) [
          | ok rr ↦ ok (
              if lt rr.ratio profile.min_risk_reward
              then reject poor_risk_reward
              else check_balance order balance)
          | raised Exception.value_error ↦ ok (check_balance order balance)
          | raised e ↦ raised e
        ]
  ]

  -- From the stop loss on. A `ValueError` of the position size rejects the order.
  unfoldable pub check_stop : OrderRequest N → N → RiskProfileConfig N → Result (ApprovalResult N)
  check_stop order balance profile = elim order.stop_loss [
    | none ↦ ok (record (reject invalid_order) {
      suggested_stop_loss = some (fixed_percentage_stop order.entry_price order.side (lit 2 2));
    })
    | some stop_loss ↦
        elim (position_size balance order.entry_price stop_loss profile.risk_per_trade) [
          | ok size ↦
              if lt (mul size.quantity (lit 11 1)) order.quantity
              then ok (record (reject risk_too_high) { suggested_quantity = some size.quantity })
              else check_reward order stop_loss balance profile
          | raised Exception.value_error ↦ ok (reject invalid_order)
          | raised e ↦ raised e
        ]
  ]
