-- ===== src/Agent/Session/Tests.antt =====
-- The session's theorems at an input.
use keryx_talos.Base.{[], List, ◌⊎◌, true, ◌≡◌, ℕ, ◌∷◌, refl, some, false}
use keryx_talos.Base.Int.{ℤ}
use keryx_talos.Number.{fixed}
use keryx_talos.Agent.Session.{
  new_stats, StartOutcome, SessionState, TradingSession, Op, pause, begin_stop, end_stop, duration,
  StopOutcome, new, run, apply,
}
use keryx_talos.Agent.Session.Lifecycle.{
  apply-Transition, Transition, IsConsistent, run-new-IsConsistent,
}
use keryx_talos.Agent.Session.Pauses.{stop_while_paused}

abbrev live : TradingSession ℤ
live = record {
  state = SessionState.running;
  stats = record new_stats { started_at = some 100 };
  agent_task = true;
  shutdown = false;
}

abbrev ops : List (ℕ × Op ℤ)
ops =
    (100, Op.begin_start)
    ∷ (110, Op.end_start StartOutcome.started)
    ∷ (120, Op.pause)
    ∷ (130, Op.record_trade true (fixed.lit 5 0))
    ∷ (150, Op.resume)
    ∷ (160, Op.begin_stop)
    ∷ (170, Op.end_stop StopOutcome.ended)
    ∷ []

apply-Transition_example :
    ((apply Op.pause 120 live).state ≡ live.state)
    ⊎ Transition live.state (apply Op.pause 120 live).state
apply-Transition_example = apply-Transition Op.pause 120 live

run-new-IsConsistent_example : IsConsistent (run ops new)
run-new-IsConsistent_example = run-new-IsConsistent ops

stop_while_paused_example :
    duration 300 (end_stop StopOutcome.ended 200 (begin_stop (pause 120 live).0).0).stats
    ≡ duration 300 (end_stop StopOutcome.ended 200 (begin_stop live).0).stats
stop_while_paused_example = stop_while_paused live 120 200 300 refl
