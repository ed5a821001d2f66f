-- ===== src/Core/MtfBuffer/State.antt =====
-- keryxflow/core/mtf_buffer.py: candles, the configuration of a timeframe and its buffer. A time is in
-- microseconds.
use keryx_talos.Base.{Bool, Option, List, String, ℕ}

pub record TimeframeConfig : Type 0 where
  pub timeframe : String
  pub interval_seconds : ℕ
  pub max_candles : ℕ
  pub is_primary : Bool
  pub is_filter : Bool

-- The dict of a candle.
pub record Candle (N : Type 0) : Type 0 where
  pub timestamp : ℕ
  pub open_price : N
  pub high : N
  pub low : N
  pub close : N
  pub volume : N

pub record TimeframeBuffer (N : Type 0) : Type 0 where
  pub config : TimeframeConfig
  pub candles : List (Candle N)
  pub current_candle : Option (Candle N)
  pub last_candle_time : Option ℕ
