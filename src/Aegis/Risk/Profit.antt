-- ===== src/Aegis/Risk/Profit.antt =====
-- The profits that the risk manager counts.
use keryx_talos.Aegis.Portfolio.Positions.{close-add_position}
use keryx_talos.Aegis.Risk.{
  position_of, RiskManager, close_position_in_portfolio, check_daily_reset, update_daily_pnl,
  add_position_to_portfolio,
}
use keryx_talos.Aegis.Portfolio.{find_position}
use keryx_talos.Base.{
  date_of, Option, none, String, arith, ℕ, some, eq_refl, if◌then◌else◌, ◌≡◌, ◌≢◌, str_eq,
}
use keryx_talos.Number.{Number, Conversion, nought}

module _ {N : Type 0} {D : Type 0} ⦃num : Number N⦄ ⦃dec : Number D⦄ ⦃conv : Conversion N D⦄ where
  open num use {add}
  open conv use {decimal, float}

  -- A position that is added and closed, with none of its symbol before, counts into the daily
  -- profit: the exit price less the entry price, times the quantity, for the side "long"; and the
  -- opposite difference for every other side, also for "buy".
  pub add_close_profit :
      (symbol side : String) (quantity entry exit : N) (stop take : Option N) (m : RiskManager N D)
      → find_position symbol m.portfolio_state.positions ≡ none
      → let m₁ = add_position_to_portfolio symbol side quantity entry stop take m in
        let m₂ = (close_position_in_portfolio symbol exit m₁).0 in
        let gain =
          if str_eq side "long"
          then dec.sub (decimal exit) (decimal entry)
          else dec.sub (decimal entry) (decimal exit) in
        (m₂.daily_pnl ≡ add m.daily_pnl (float (dec.mul gain (decimal quantity))))
        × (m₂.portfolio_state.positions ≡ m.portfolio_state.positions)
  unfolding add_position_to_portfolio close_position_in_portfolio
  add_close_profit symbol side quantity entry exit stop take m e = ground (
    arith,
    eq_refl symbol,
    close-add_position symbol exit (position_of symbol side quantity entry stop take)
        m.portfolio_state e,
  )

  -- `update_daily_pnl` on the day of the last reset stores the profit. On any other day it stores 0
  -- instead, and starts the day at the current balance.
  pub update_daily_pnl_lem :
      (pnl : N) (now : ℕ) (m : RiskManager N D)
      → let m' = update_daily_pnl pnl now m in
        (m.last_reset_date ≡ some (date_of now)
          → (m'.daily_pnl ≡ pnl) × (m'.daily_starting_balance ≡ m.daily_starting_balance))
        × (m.last_reset_date ≢ some (date_of now)
            → (m'.daily_pnl ≡ nought) × (m'.daily_starting_balance ≡ m.current_balance))
  unfolding update_daily_pnl check_daily_reset
  update_daily_pnl_lem pnl now m = ground arith
