-- ===== src/Core/Events/State.antt =====
-- keryxflow/core/events.py: types of events, events, and the state of the bus. `asyncio.Queue` is the
-- list of the events that it holds and of those whose `put` waits for room. A handler is a number,
-- the data of an event a value of any type.
use keryx_talos.Base.{ℕ, Bool, String, List, Option}
use keryx_talos.Base.Dict.{Dict}

pub data EventType : Type 0 where
  price_update ohlcv_update signal_generated signal_validated signal_rejected : EventType
  order_requested order_approved order_rejected order_submitted order_filled : EventType
  order_cancelled position_opened position_updated position_closed risk_alert : EventType
  circuit_breaker_triggered drawdown_warning system_started system_stopped : EventType
  system_paused system_resumed panic_triggered llm_analysis_started : EventType
  llm_analysis_completed llm_analysis_failed news_fetched agent_cycle_started : EventType
  agent_cycle_completed agent_cycle_failed session_state_changed : EventType
  agent_analysis_completed agent_risk_assessed agent_execution_completed : EventType
  tool_executed : EventType

abbrev pub value : EventType → String
value price_update = "price_update"
value ohlcv_update = "ohlcv_update"
value signal_generated = "signal_generated"
value signal_validated = "signal_validated"
value signal_rejected = "signal_rejected"
value order_requested = "order_requested"
value order_approved = "order_approved"
value order_rejected = "order_rejected"
value order_submitted = "order_submitted"
value order_filled = "order_filled"
value order_cancelled = "order_cancelled"
value position_opened = "position_opened"
value position_updated = "position_updated"
value position_closed = "position_closed"
value risk_alert = "risk_alert"
value circuit_breaker_triggered = "circuit_breaker_triggered"
value drawdown_warning = "drawdown_warning"
value system_started = "system_started"
value system_stopped = "system_stopped"
value system_paused = "system_paused"
value system_resumed = "system_resumed"
value panic_triggered = "panic_triggered"
value llm_analysis_started = "llm_analysis_started"
value llm_analysis_completed = "llm_analysis_completed"
value llm_analysis_failed = "llm_analysis_failed"
value news_fetched = "news_fetched"
value agent_cycle_started = "agent_cycle_started"
value agent_cycle_completed = "agent_cycle_completed"
value agent_cycle_failed = "agent_cycle_failed"
value session_state_changed = "session_state_changed"
value agent_analysis_completed = "agent_analysis_completed"
value agent_risk_assessed = "agent_risk_assessed"
value agent_execution_completed = "agent_execution_completed"
value tool_executed = "tool_executed"

pub record Event (A : Type 0) : Type 0 where
  pub type : EventType
  pub timestamp : ℕ
  pub content : A

-- A call of a handler with an event.
abbrev pub HandlerCall : Type 0 → Type 0
HandlerCall A = ℕ × Event A

-- `processing` is the event that the processor has taken and whose handlers run.
pub record EventBus (A : Type 0) : Type 0 where
  pub subscribers : Dict (List ℕ)
  pub queue : List (Event A)
  pub waiting : List (Event A)
  pub max_queue_size : ℕ
  pub running : Bool
  pub processing : Option (Event A)
