-- ===== src/Agent/Session.antt =====
-- keryxflow/agent/session.py: `TradingSession`. The agent, the engine and the event bus are outside:
-- how their calls end is an argument of a step. The log and `get_status` are left out.
mod State
pub mod Lifecycle
pub mod Pauses
mod Tests
pub use State.*
use keryx_talos.Base.{
  Bool-cases, leb→le, All-append, map, ◌++◌, length-append, lt→ltb, false, ◌^◌, ◌<◌, arith, ◌∙◌,
  ◌≢◌, eq_iff, ◌≤◌, String, not, Bool, eq_refl, All-keep, ap, microseconds_per_day, ◌||◌, some,
  true, ℕ, List, ◌+◌, ltb, le→leb, str_eq, leb, keep, max, microseconds_per_second, All, ◌==◌, suc,
  refl, date_of, [], ◌&&◌, ◌↔◌, inr, Option, subst, if◌then◌else◌, ◌-◌, Side, Option-cases, ◌/◌,
  sym, ◌⊎◌, ◌∷◌, is_some, if_keeps, same_date, zero, sell, buy, none, ◌*◌, length,
  microseconds_per_minute, get_elem?, ◌%◌, ◌≡◌, inl,
}
use keryx_talos.Number.{Number, nought}

module _ {N : Type 0} ⦃num : Number N⦄ where
  open num use {add}

  abbrev pub new_stats : SessionStats N
  new_stats = record {
    started_at = none;
    stopped_at = none;
    paused_at = none;
    total_paused_time = 0;
    cycles_completed = 0;
    cycles_successful = 0;
    cycles_failed = 0;
    cycles_fallback = 0;
    trades_executed = 0;
    trades_won = 0;
    trades_lost = 0;
    total_pnl = nought;
    tool_calls = 0;
    tokens_used = 0;
    input_tokens = 0;
    output_tokens = 0;
    total_cost = nought;
    errors = [];
  }

  abbrev pub new : TradingSession N
  new = record {
    state = SessionState.idle;
    stats = new_stats;
    agent_task = false;
    shutdown = false;
  }

  -- `self._stats.errors.append(message)`
  abbrev pub add_error : String → SessionStats N → SessionStats N
  add_error message t = record t { errors = t.errors ++ (message ∷ []) }

  -- `start` up to its `try`. The result tells whether it goes on.
  pub begin_start : ℕ → TradingSession N → TradingSession N × Bool
  begin_start now s =
      if can_start s.state
      then (
        record s {
          state = SessionState.starting;
          stats = record new_stats { started_at = some now };
          shutdown = false;
        },
        true,
      )
      else (s, false)

  -- The `try` of `start` and its `except`.
  pub end_start : StartOutcome → TradingSession N → TradingSession N
  end_start started s = record s { agent_task = true; state = SessionState.running }
  end_start (not_started message) s = record s {
    state = SessionState.error;
    stats = add_error message s.stats;
  }
  end_start (failed_after_task message) s = record s {
    agent_task = true;
    state = SessionState.error;
    stats = add_error message s.stats;
  }

  -- `stop` up to where it awaits the agent loop.
  pub begin_stop : TradingSession N → TradingSession N × Bool
  begin_stop s =
      if can_stop s.state
      then (record s { state = SessionState.stopping; shutdown = true }, true)
      else (s, false)

  -- The rest of `stop`, with the agent loop cancelled.
  pub end_stop : StopOutcome → ℕ → TradingSession N → TradingSession N
  end_stop ended now s = record s {
    agent_task = false;
    stats = record (s.stats) { stopped_at = some now };
    state = SessionState.stopped;
  }
  end_stop (failed_after_stop message) now s = record s {
    agent_task = false;
    state = SessionState.error;
    stats = add_error message (record (s.stats) { stopped_at = some now });
  }
  end_stop (not_ended message) now s = record s {
    agent_task = false;
    state = SessionState.error;
    stats = add_error message s.stats;
  }

  pub pause : ℕ → TradingSession N → TradingSession N × Bool
  pause now s = elim s.state [
    | SessionState.running ↦ (
      record s { state = SessionState.paused; stats = record (s.stats) { paused_at = some now } },
      true,
    )
    | _ ↦ (s, false)
  ]

  abbrev end_pause : ℕ → Option ℕ → SessionStats N → SessionStats N
  end_pause now none t = t
  end_pause now (some since) t = record t {
    total_paused_time = t.total_paused_time + (now - since);
    paused_at = none;
  }

  pub resume : ℕ → TradingSession N → TradingSession N × Bool
  resume now s = elim s.state [
    | SessionState.paused ↦ (
      record s { stats = end_pause now s.stats.paused_at s.stats; state = SessionState.running },
      true,
    )
    | _ ↦ (s, false)
  ]

  -- `if result.error`
  abbrev add_message : Option String → SessionStats N → SessionStats N
  add_message none t = t
  add_message (some message) t = if str_eq message "" then t else add_error message t

  abbrev count_status : CycleStatus → Option String → SessionStats N → SessionStats N
  count_status success message t = record t { cycles_successful = t.cycles_successful + 1 }
  count_status fallback message t = record t { cycles_fallback = t.cycles_fallback + 1 }
  count_status failed message t =
      add_message message (record t { cycles_failed = t.cycles_failed + 1 })
  count_status other message t = t

  abbrev add_usage : CycleResult N → SessionStats N → SessionStats N
  add_usage r t = record t {
    tool_calls = t.tool_calls + r.tool_results;
    tokens_used = t.tokens_used + r.tokens_used;
    input_tokens = t.input_tokens + r.input_tokens;
    output_tokens = t.output_tokens + r.output_tokens;
    total_cost = add t.total_cost r.total_cost;
  }

  -- A cycle starts while the session is running, and may return while it is paused; a shutdown
  -- cancels it.
  abbrev pub may_cycle : TradingSession N → Bool
  may_cycle s = s.agent_task && not s.shutdown

  -- An iteration of `_run_agent_loop` whose cycle returns, and one whose cycle raises.
  pub cycle : CycleResult N → TradingSession N → TradingSession N
  cycle r s =
      if may_cycle s
      then record s {
        stats = add_usage r (
            count_status r.status r.error
              (record (s.stats) { cycles_completed = s.stats.cycles_completed + 1 }));
      }
      else s

  pub cycle_raises : String → TradingSession N → TradingSession N
  cycle_raises message s =
      if may_cycle s
      then record s {
        stats = add_error message (record (s.stats) { cycles_failed = s.stats.cycles_failed + 1 });
      }
      else s

  abbrev count_trade : Bool → SessionStats N → SessionStats N
  count_trade true t = record t { trades_won = t.trades_won + 1 }
  count_trade false t = record t { trades_lost = t.trades_lost + 1 }

  pub record_trade : Bool → N → TradingSession N → TradingSession N
  record_trade won pnl s = record s {
    stats = count_trade won (record (s.stats) {
      trades_executed = s.stats.trades_executed + 1;
      total_pnl = add s.stats.total_pnl pnl;
    });
  }

  -- `duration_seconds` at a time, in microseconds; no clock runs backwards.
  abbrev pub duration : ℕ → SessionStats N → ℕ
  duration now t = elim t.started_at [
    | none ↦ 0
    | some since ↦ or_now t.stopped_at now - since - t.total_paused_time
  ]

  -- A step. An end of `start` or `stop` comes only while the call waits.
  abbrev pub apply : Op N → ℕ → TradingSession N → TradingSession N
  apply Op.begin_start now s = (begin_start now s).0
  apply (Op.end_start outcome) now s = elim s.state [
    | SessionState.starting ↦ end_start outcome s
    | _ ↦ s
  ]
  apply Op.begin_stop now s = (begin_stop s).0
  apply (Op.end_stop outcome) now s = elim s.state [
    | SessionState.stopping ↦ end_stop outcome now s
    | _ ↦ s
  ]
  apply Op.pause now s = (pause now s).0
  apply Op.resume now s = (resume now s).0
  apply (Op.cycle r) now s = cycle r s
  apply (Op.cycle_raises message) now s = cycle_raises message s
  apply (Op.record_trade won pnl) now s = record_trade won pnl s

  pub run : List (ℕ × Op N) → TradingSession N → TradingSession N
  run [] s = s
  run ((now, op) ∷ ops) s = run ops (apply op now s)
