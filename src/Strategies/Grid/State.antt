-- ===== src/Strategies/Grid/State.antt =====
-- keryxflow/strategies/grid.py: orders and the state of a grid.
use keryx_talos.Base.{ℕ, Bool, String, List}

pub data GridType : Type 0 where
  arithmetic geometric : GridType

pub record GridOrder (N : Type 0) : Type 0 where
  pub price : N
  pub quantity : N
  pub side : String
  pub level_index : ℕ

pub record GridStrategy (N : Type 0) : Type 0 where
  pub symbol : String
  pub lower_price : N
  pub upper_price : N
  pub grid_count : ℕ
  pub total_investment : N
  pub grid_type : GridType
  pub auto_stop_on_breakout : Bool
  pub is_stopped : Bool
  pub total_profit : N
  pub completed_cycles : ℕ
  pub levels : List N
  pub initialized : Bool
  pub pending_buys : List (ℕ × N)
  pub capital_per_cell : N
