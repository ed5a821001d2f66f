-- ===== src/Agent/Session/State.antt =====
-- keryxflow/agent/session.py: the states, the statistics and the fields of `TradingSession` that its
-- methods change. Times are in microseconds.
use keryx_talos.Base.{none, some, true, false, Bool, Option, List, String, ℕ}

pub data SessionState : Type 0 where
  idle starting running paused stopping stopped error : SessionState

-- The states that `start` and `stop` accept.
abbrev pub can_start : SessionState → Bool
can_start SessionState.idle = true
can_start SessionState.stopped = true
can_start _ = false

abbrev pub can_stop : SessionState → Bool
can_stop SessionState.running = true
can_stop SessionState.paused = true
can_stop SessionState.error = true
can_stop _ = false

-- `x or now`
abbrev pub or_now : Option ℕ → ℕ → ℕ
or_now none now = now
or_now (some t) now = t

pub record SessionStats (N : Type 0) : Type 0 where
  pub started_at : Option ℕ
  pub stopped_at : Option ℕ
  pub paused_at : Option ℕ
  pub total_paused_time : ℕ
  pub cycles_completed : ℕ
  pub cycles_successful : ℕ
  pub cycles_failed : ℕ
  pub cycles_fallback : ℕ
  pub trades_executed : ℕ
  pub trades_won : ℕ
  pub trades_lost : ℕ
  pub total_pnl : N
  pub tool_calls : ℕ
  pub tokens_used : ℕ
  pub input_tokens : ℕ
  pub output_tokens : ℕ
  pub total_cost : N
  pub errors : List String

-- `agent_task` tells whether the agent loop runs, `shutdown` is the shutdown event.
pub record TradingSession (N : Type 0) : Type 0 where
  pub state : SessionState
  pub stats : SessionStats N
  pub agent_task : Bool
  pub shutdown : Bool

pub data CycleStatus : Type 0 where
  success fallback failed other : CycleStatus

-- What the loop reads of the result of `run_cycle`.
pub record CycleResult (N : Type 0) : Type 0 where
  pub status : CycleStatus
  pub error : Option String
  pub tool_results : ℕ
  pub tokens_used : ℕ
  pub input_tokens : ℕ
  pub output_tokens : ℕ
  pub total_cost : N

-- How the awaited part of `start` ends: an exception comes before the agent loop is created, or from
-- the event after it.
pub data StartOutcome : Type 0 where
  started : StartOutcome
  not_started failed_after_task : String → StartOutcome

-- How the awaited part of `stop` ends: an exception comes from the engine, or from the event after
-- the session has stopped.
pub data StopOutcome : Type 0 where
  ended : StopOutcome
  not_ended failed_after_stop : String → StopOutcome

-- The steps of a session. `start` and `stop` wait for the agent and the engine, so each is two steps,
-- between which other calls may come.
pub data Op (N : Type 0) : Type 0 where
  begin_start : Op N
  end_start : StartOutcome → Op N
  begin_stop : Op N
  end_stop : StopOutcome → Op N
  pause resume : Op N
  cycle : CycleResult N → Op N
  cycle_raises : String → Op N
  record_trade : Bool → N → Op N
