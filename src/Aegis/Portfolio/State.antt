-- ===== src/Aegis/Portfolio/State.antt =====
-- keryxflow/aegis/portfolio.py: the dataclasses of the portfolio.
use keryx_talos.Base.{String, ℕ, Option, List}
use keryx_talos.Base.Dict.{Dict}

pub record PositionState (D : Type 0) : Type 0 where
  pub symbol : String
  pub side : String
  pub quantity : D
  pub entry_price : D
  pub current_price : D
  pub stop_loss : Option D
  pub take_profit : Option D

pub record PortfolioState (D : Type 0) : Type 0 where
  pub total_value : D
  pub cash_available : D
  pub peak_value : D
  pub positions : List (PositionState D)
  pub daily_starting_value : D
  pub daily_pnl : D
  pub trades_today : ℕ
  pub weekly_starting_value : D
  pub weekly_pnl : D
  pub trades_this_hour : ℕ
  pub consecutive_losses : ℕ

pub data Op (N D : Type 0) : Type 0 where
  add_position : PositionState D → Op N D
  close_position : String → N → Op N D
  update_prices : Dict N → Op N D
  reset_daily : Op N D
  reset_weekly : Op N D
  reset_hourly : Op N D
  reset_consecutive_losses : Op N D
