-- ===== src/Agent/Session/Pauses.antt =====
-- keryxflow/agent/session.py: the duration of a session and its pauses.
use keryx_talos.Base.{◌+◌, none, ◌≤◌, ℕ, ◌≡◌, arith, ◌-◌, some}
use keryx_talos.Number.{Number}
use keryx_talos.Agent.Session.{
  SessionState, TradingSession, pause, resume, begin_stop, end_stop, duration, StopOutcome,
}

module _ {N : Type 0} ⦃num : Number N⦄ where
  -- A pause and its end take the time between them off the duration that the session has at any later
  -- time, where it has not stopped and the clock has not run backwards.
  pub pause-resume :
      (s : TradingSession N) (since t₁ t₂ now : ℕ)
      → s.state ≡ SessionState.running
      → s.stats.started_at ≡ some since
      → s.stats.stopped_at ≡ none
      → since + s.stats.total_paused_time ≤ t₁
      → t₁ ≤ t₂
      → t₂ ≤ now
      → let s' = (resume t₂ (pause t₁ s).0).0 in
        (s'.state ≡ SessionState.running)
        × (duration now s'.stats + (t₂ - t₁) ≡ duration now s.stats)
  unfolding pause resume
  pause-resume s since t₁ t₂ now r st sp h₁ h₂ h₃ = ground arith

  -- A session that is stopped while it is paused, by a stop that succeeds, has the duration that it
  -- would have without the pause: the time since the pause is counted.
  pub stop_while_paused :
      (s : TradingSession N) (t₁ t₂ now : ℕ)
      → s.state ≡ SessionState.running
      → duration now (end_stop StopOutcome.ended t₂ (begin_stop (pause t₁ s).0).0).stats
        ≡ duration now (end_stop StopOutcome.ended t₂ (begin_stop s).0).stats
  unfolding pause begin_stop end_stop
  stop_while_paused s t₁ t₂ now r = ground arith
