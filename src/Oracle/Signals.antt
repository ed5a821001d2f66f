-- ===== src/Oracle/Signals.antt =====
-- keryxflow/oracle/signals.py: a signal, with the fields that the engines read.
use keryx_talos.Base.{Option}

pub data SignalType : Type 0 where
  long short close_long close_short no_action : SignalType

pub record TradingSignal (N : Type 0) : Type 0 where
  pub signal_type : SignalType
  pub entry_price : Option N
  pub stop_loss : Option N
  pub take_profit : Option N
