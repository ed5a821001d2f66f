-- ===== src/Aegis/Circuit/State.antt =====
-- keryxflow/aegis/circuit.py: the enumerations and dataclasses of the circuit breaker.
use keryx_talos.Base.{ℕ, String, Bool, Option, List}

-- `open` is a reserved word: the state OPEN is `opened`.
pub data CircuitState : Type 0 where
  closed opened half_open : CircuitState

pub data TripReason : Type 0 where
  daily_drawdown consecutive_losses rapid_losses manual exchange_error system_error : TripReason

-- The texts that `_trip` is given, by what they are formatted from.
pub data Details (N : Type 0) : Type 0 where
  daily_limit : N → N → Details N
  total_limit : N → N → Details N
  losses_in_row : ℕ → Details N
  lost_in_minutes : N → ℕ → Details N
  text : String → Details N

pub record TripEvent (N : Type 0) : Type 0 where
  pub timestamp : ℕ
  pub reason : TripReason
  pub details : Details N
  pub balance_at_trip : N
  pub drawdown_at_trip : N

pub record CircuitBreakerConfig (N : Type 0) : Type 0 where
  pub max_daily_drawdown : N
  pub max_total_drawdown : N
  pub max_consecutive_losses : ℕ
  pub rapid_loss_threshold : N
  pub rapid_loss_window_minutes : ℕ
  pub cooldown_minutes : ℕ
  pub require_manual_reset : Bool
  pub warning_drawdown : N

-- `last_reset_date` is a day, and `none` for the empty text that it starts with.
pub record CircuitBreaker (N : Type 0) : Type 0 where
  pub config : CircuitBreakerConfig N
  pub state : CircuitState
  pub trip_reason : Option TripReason
  pub trip_time : Option ℕ
  pub trip_events : List (TripEvent N)
  pub consecutive_losses : ℕ
  pub recent_losses : List (ℕ × N)
  pub peak_balance : N
  pub current_balance : N
  pub daily_starting_balance : N
  pub last_reset_date : Option ℕ

-- The second part of the answer of `can_trade`.
pub data Advice (N : Type 0) : Type 0 where
  breaker_active : Option TripReason → Advice N
  drawdown_warning : N → Advice N
  trading_allowed : Advice N

-- A call of a method that changes the breaker.
pub data Op (N : Type 0) : Type 0 where
  update_balance : N → Op N
  record_trade_result : Bool → Op N
  trip_manual : String → Op N
  trip_on_error : String → Op N
  reset : Bool → Op N
