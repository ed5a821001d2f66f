-- ===== src/Agent/Session/Lifecycle.antt =====
-- keryxflow/agent/session.py: the state machine of a session, and the counts of its statistics.
use keryx_talos.Base.{
  ◌∷◌, [], List, true, arith, is_some, none, ◌≤◌, ◌+◌, ◌⊎◌, inl, refl, ◌≡◌, inr, ℕ,
}
use keryx_talos.Number.{Number}
use keryx_talos.Agent.Session.{
  failed_after_stop, new, run, failed_after_task, not_started, not_ended, Op, record_trade, apply,
  StopOutcome, StartOutcome, cycle_raises, end_start, end_stop, cycle, SessionState, TradingSession,
  begin_start, begin_stop, pause, resume,
}

-- The transitions that a session makes.
pub data Transition : SessionState → SessionState → Type 0 where
  starts : Transition SessionState.idle SessionState.starting
  restarts : Transition SessionState.stopped SessionState.starting
  runs : Transition SessionState.starting SessionState.running
  start_fails : Transition SessionState.starting SessionState.error
  pauses : Transition SessionState.running SessionState.paused
  resumes : Transition SessionState.paused SessionState.running
  stops : Transition SessionState.running SessionState.stopping
  stops_paused : Transition SessionState.paused SessionState.stopping
  stops_error : Transition SessionState.error SessionState.stopping
  stopped : Transition SessionState.stopping SessionState.stopped
  stop_fails : Transition SessionState.stopping SessionState.error

module _ {N : Type 0} ⦃num : Number N⦄ where
  -- What a call keeps or changes of the state.
  abbrev Steps : TradingSession N → TradingSession N → Type 0
  Steps s s' = (s'.state ≡ s.state) ⊎ Transition s.state s'.state

  begin_start-Steps :
      (now : ℕ) (s : TradingSession N) (st : SessionState)
      → s.state ≡ st
      → Steps s (begin_start now s).0
  unfolding begin_start
  begin_start-Steps now s SessionState.idle e = rw (e, begin_start) (inr starts)
  begin_start-Steps now s SessionState.starting e = rw (e, begin_start) (inl refl)
  begin_start-Steps now s SessionState.running e = rw (e, begin_start) (inl refl)
  begin_start-Steps now s SessionState.paused e = rw (e, begin_start) (inl refl)
  begin_start-Steps now s SessionState.stopping e = rw (e, begin_start) (inl refl)
  begin_start-Steps now s SessionState.stopped e = rw (e, begin_start) (inr restarts)
  begin_start-Steps now s SessionState.error e = rw (e, begin_start) (inl refl)

  begin_stop-Steps :
      (s : TradingSession N) (st : SessionState) → s.state ≡ st → Steps s (begin_stop s).0
  unfolding begin_stop
  begin_stop-Steps s SessionState.idle e = rw (e, begin_stop) (inl refl)
  begin_stop-Steps s SessionState.starting e = rw (e, begin_stop) (inl refl)
  begin_stop-Steps s SessionState.running e = rw (e, begin_stop) (inr stops)
  begin_stop-Steps s SessionState.paused e = rw (e, begin_stop) (inr stops_paused)
  begin_stop-Steps s SessionState.stopping e = rw (e, begin_stop) (inl refl)
  begin_stop-Steps s SessionState.stopped e = rw (e, begin_stop) (inl refl)
  begin_stop-Steps s SessionState.error e = rw (e, begin_stop) (inr stops_error)

  pause-Steps :
      (now : ℕ) (s : TradingSession N) (st : SessionState) → s.state ≡ st → Steps s (pause now s).0
  unfolding pause
  pause-Steps now s SessionState.idle e = rw (e, pause) (inl e)
  pause-Steps now s SessionState.starting e = rw (e, pause) (inl e)
  pause-Steps now s SessionState.running e = rw (e, pause) (inr pauses)
  pause-Steps now s SessionState.paused e = rw (e, pause) (inl e)
  pause-Steps now s SessionState.stopping e = rw (e, pause) (inl e)
  pause-Steps now s SessionState.stopped e = rw (e, pause) (inl e)
  pause-Steps now s SessionState.error e = rw (e, pause) (inl e)

  resume-Steps :
      (now : ℕ) (s : TradingSession N) (st : SessionState) → s.state ≡ st → Steps s (resume now s).0
  unfolding resume
  resume-Steps now s SessionState.idle e = rw (e, resume) (inl e)
  resume-Steps now s SessionState.starting e = rw (e, resume) (inl e)
  resume-Steps now s SessionState.running e = rw (e, resume) (inl e)
  resume-Steps now s SessionState.paused e = rw (e, resume) (inr resumes)
  resume-Steps now s SessionState.stopping e = rw (e, resume) (inl e)
  resume-Steps now s SessionState.stopped e = rw (e, resume) (inl e)
  resume-Steps now s SessionState.error e = rw (e, resume) (inl e)

  end_start-Steps :
      (outcome : StartOutcome) (now : ℕ) (s : TradingSession N) (st : SessionState)
      → s.state ≡ st
      → Steps s (apply (Op.end_start outcome) now s)
  unfolding end_start
  end_start-Steps StartOutcome.started now s SessionState.starting e = rw (e, apply) (inr runs)
  end_start-Steps (not_started x) now s SessionState.starting e = rw (e, apply) (inr start_fails)
  end_start-Steps (failed_after_task x) now s SessionState.starting e =
      rw (e, apply) (inr start_fails)
  end_start-Steps o now s SessionState.idle e = rw (e, apply) (inl e)
  end_start-Steps o now s SessionState.running e = rw (e, apply) (inl e)
  end_start-Steps o now s SessionState.paused e = rw (e, apply) (inl e)
  end_start-Steps o now s SessionState.stopping e = rw (e, apply) (inl e)
  end_start-Steps o now s SessionState.stopped e = rw (e, apply) (inl e)
  end_start-Steps o now s SessionState.error e = rw (e, apply) (inl e)

  end_stop-Steps :
      (outcome : StopOutcome) (now : ℕ) (s : TradingSession N) (st : SessionState)
      → s.state ≡ st
      → Steps s (apply (Op.end_stop outcome) now s)
  unfolding end_stop
  end_stop-Steps StopOutcome.ended now s SessionState.stopping e = rw (e, apply) (inr stopped)
  end_stop-Steps (not_ended x) now s SessionState.stopping e = rw (e, apply) (inr stop_fails)
  end_stop-Steps (failed_after_stop x) now s SessionState.stopping e =
      rw (e, apply) (inr stop_fails)
  end_stop-Steps o now s SessionState.idle e = rw (e, apply) (inl e)
  end_stop-Steps o now s SessionState.running e = rw (e, apply) (inl e)
  end_stop-Steps o now s SessionState.paused e = rw (e, apply) (inl e)
  end_stop-Steps o now s SessionState.starting e = rw (e, apply) (inl e)
  end_stop-Steps o now s SessionState.stopped e = rw (e, apply) (inl e)
  end_stop-Steps o now s SessionState.error e = rw (e, apply) (inl e)

  -- Whatever is called and however the agent and the engine answer, a step keeps the state of the
  -- session or makes one of the transitions: trading runs only after a start or a pause, and a
  -- session in error is started again only by way of a stop.
  pub apply-Transition :
      (op : Op N) (now : ℕ) (s : TradingSession N)
      → ((apply op now s).state ≡ s.state) ⊎ Transition s.state (apply op now s).state
  unfolding cycle cycle_raises record_trade
  apply-Transition Op.begin_start now s = begin_start-Steps now s s.state refl
  apply-Transition (Op.end_start outcome) now s = end_start-Steps outcome now s s.state refl
  apply-Transition Op.begin_stop now s = begin_stop-Steps s s.state refl
  apply-Transition (Op.end_stop outcome) now s = end_stop-Steps outcome now s s.state refl
  apply-Transition Op.pause now s = pause-Steps now s s.state refl
  apply-Transition Op.resume now s = resume-Steps now s s.state refl
  apply-Transition (Op.cycle r) now s = inl (ground arith)
  apply-Transition (Op.cycle_raises x) now s = inl (ground arith)
  apply-Transition (Op.record_trade won pnl) now s = inl refl

  -- What the counts and the pause of a session keep.
  pub record IsConsistent (s : TradingSession N) : Type 0 where
    pub cycles_ok : s.stats.cycles_successful + s.stats.cycles_fallback ≤ s.stats.cycles_completed
    pub trades_eq : s.stats.trades_won + s.stats.trades_lost ≡ s.stats.trades_executed
    pub running_unpaused : s.state ≡ SessionState.running → s.stats.paused_at ≡ none
    pub starting_unpaused : s.state ≡ SessionState.starting → s.stats.paused_at ≡ none
    pub paused_since : s.state ≡ SessionState.paused → is_some s.stats.paused_at ≡ true

  apply-IsConsistent :
      (op : Op N) (now : ℕ) (s : TradingSession N) → IsConsistent s → IsConsistent (apply op now s)
  unfolding begin_start end_start begin_stop end_stop pause resume cycle cycle_raises record_trade
  apply-IsConsistent op now s v = ground arith

  run-IsConsistent :
      (ops : List (ℕ × Op N)) (s : TradingSession N) → IsConsistent s → IsConsistent (run ops s)
  unfolding run
  run-IsConsistent [] s v = v
  run-IsConsistent ((now, op) ∷ ops) s v =
      run-IsConsistent ops (apply op now s) (apply-IsConsistent op now s v)

  -- A new session, after any steps, has counted no more successful cycles and fallbacks than cycles,
  -- and as many trades as won and lost ones; it has a time since which it is paused if it is paused,
  -- and none if it runs or starts.
  pub run-new-IsConsistent : (ops : List (ℕ × Op N)) → IsConsistent (run ops new)
  run-new-IsConsistent ops = run-IsConsistent ops new (record {
    cycles_ok = omega arith;
    trades_eq = refl;
    running_unpaused = λ e. refl;
    starting_unpaused = λ e. refl;
    paused_since = λ e. ground arith;
  })
