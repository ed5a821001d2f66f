-- ===== src/Aegis/Portfolio/Trades.antt =====
-- What the calls of the portfolio do to its counters of trades.
use keryx_talos.Aegis.Portfolio.{
  PositionState, update_total_value, settle, reset_daily, PortfolioState, add_position,
  close_position, update_prices,
}
use keryx_talos.Base.{String, ◌≡◌, ◌+◌, refl, arith, ℕ}
use keryx_talos.Base.Dict.{Dict}
use keryx_talos.Number.{Number, Conversion}

-- The trades counted today and in this hour.
abbrev pub trades : {D : Type 0} → PortfolioState D → ℕ × ℕ
trades s = (s.trades_today, s.trades_this_hour)

module _ {D : Type 0} ⦃dec : Number D⦄ where
  pub trades-add_position :
      (p : PositionState D) (s : PortfolioState D)
      → trades (add_position p s) ≡ (s.trades_today + 1, s.trades_this_hour + 1)
  unfolding add_position update_total_value
  trades-add_position p s = refl

  pub trades-reset_daily : (s : PortfolioState D) → trades (reset_daily s) ≡ (0, s.trades_this_hour)
  unfolding reset_daily
  trades-reset_daily s = refl

  module _ {N : Type 0} ⦃conv : Conversion N D⦄ where
    pub trades-close_position :
        (symbol : String) (exit_price : N) (s : PortfolioState D)
        → trades (close_position symbol exit_price s).0 ≡ trades s
    unfolding close_position settle update_total_value
    trades-close_position symbol exit_price s = ground arith

    pub trades-update_prices :
        (prices : Dict N) (s : PortfolioState D) → trades (update_prices prices s) ≡ trades s
    unfolding update_prices update_total_value
    trades-update_prices prices s = refl
