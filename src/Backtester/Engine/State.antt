-- ===== src/Backtester/Engine/State.antt =====
-- keryxflow/backtester/engine.py: trades, positions, the engine, and the data that it is given. A data
-- frame is the list of its rows.
pub use keryx_talos.Oracle.Signals.{SignalType, TradingSignal}
use keryx_talos.Base.{ℕ, Bool, String, List, Option}
use keryx_talos.Base.Dict.{Dict}
use keryx_talos.Base.Result.{Result}
use keryx_talos.Aegis.Risk.{RiskManager}

pub record BacktestTrade (N : Type 0) : Type 0 where
  pub symbol : String
  pub side : String
  pub quantity : N
  pub entry_price : N
  pub entry_time : Option ℕ
  pub exit_price : Option N
  pub exit_time : Option ℕ
  pub stop_loss : Option N
  pub take_profit : Option N
  pub pnl : N
  pub pnl_percentage : N
  pub exit_reason : Option String

pub record BacktestPosition (N : Type 0) : Type 0 where
  pub symbol : String
  pub side : String
  pub quantity : N
  pub entry_price : N
  pub entry_time : Option ℕ
  pub stop_loss : Option N
  pub take_profit : Option N
  pub current_price : N

pub record BacktestEngine (N D : Type 0) : Type 0 where
  pub initial_balance : N
  pub slippage : N
  pub commission : N
  pub min_candles : ℕ
  pub mtf_enabled : Bool
  pub primary_timeframe : Option String
  pub risk_manager : RiskManager N D
  pub balance : N
  pub positions : Dict (BacktestPosition N)
  pub trades : List (BacktestTrade N)
  pub equity_curve : List N
  pub current_time : Option ℕ

-- A row of a data frame.
pub record Bar (N : Type 0) : Type 0 where
  pub datetime : ℕ
  pub open_price : N
  pub high : N
  pub low : N
  pub close : N
  pub volume : N

-- `dict[str, DataFrame]` of symbols, or of timeframes for each symbol.
pub data MarketData (N : Type 0) : Type 0 where
  single : Dict (List (Bar N)) → MarketData N
  multi : Dict (Dict (List (Bar N))) → MarketData N

-- The `ohlcv` of a call of the signal generator.
pub data Ohlcv (N : Type 0) : Type 0 where
  frame : List (Bar N) → Ohlcv N
  frames : Dict (List (Bar N)) → Ohlcv N

-- `generate_signal` of a symbol, its prices and the current price.
abbrev pub Generator : Type 0 → Type 0
Generator N = String → Ohlcv N → N → Result (TradingSignal N)
