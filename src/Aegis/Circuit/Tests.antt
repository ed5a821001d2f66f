-- ===== src/Aegis/Circuit/Tests.antt =====
-- Runs of the circuit breaker, and its theorems at an input.
use keryx_talos.Number.{fixed}
use keryx_talos.Base.Int.{pos, ℤ}
use keryx_talos.Aegis.Circuit.{
  breaker_active, can_trade, trip, check_rapid_loss_trigger, check_drawdown_triggers, record_loss,
  TripReason, CircuitState, new, check_daily_reset, Op, take_balance, daily_drawdown, run,
  update_balance, CircuitBreaker,
}
use keryx_talos.Aegis.Circuit.Triggers.{
  update_balance_checked, first_day_blind, LimitsKept, update_all,
}
use keryx_talos.Aegis.Circuit.Invariant.{run-IsLatched, IsLatched, run-new-IsValid, IsValid}
use keryx_talos.Base.{true, [], ◌≡◌, refl, ◌*◌, ℕ, ◌∷◌, none, false, some, microseconds_per_minute}

abbrev minute : ℕ → ℕ
minute n = n * microseconds_per_minute

abbrev start : CircuitBreaker ℤ
start = record {
  config = record {
    max_daily_drawdown = fixed.lit 5 2;
    max_total_drawdown = fixed.lit 15 2;
    max_consecutive_losses = 2;
    rapid_loss_threshold = fixed.lit 3 2;
    rapid_loss_window_minutes = 30;
    cooldown_minutes = 60;
    require_manual_reset = true;
    warning_drawdown = fixed.lit 3 2;
  };
  state = CircuitState.closed;
  trip_reason = none;
  trip_time = none;
  trip_events = [];
  consecutive_losses = 0;
  recent_losses = [];
  peak_balance = fixed.lit 1000 0;
  current_balance = fixed.lit 1000 0;
  daily_starting_balance = fixed.lit 1000 0;
  last_reset_date = some 0;
}

abbrev tripped : CircuitBreaker ℤ
tripped = record start {
  state = CircuitState.opened;
  trip_reason = some TripReason.manual;
  trip_time = some (minute 5);
}

-- A fall of 4% within a minute is too fast; the daily limit of 5% is not reached.
rapid :
    (update_balance (fixed.lit 960 0) (minute 1) start).trip_reason ≡ some TripReason.rapid_losses
unfolding update_balance take_balance check_daily_reset record_loss check_drawdown_triggers
    check_rapid_loss_trigger trip
rapid = refl

run-new-IsValid_example :
    IsValid (
      run ((minute 1, Op.trip_manual "stop") ∷ (minute 70, Op.reset false) ∷ []) (new start.config))
run-new-IsValid_example =
    run-new-IsValid start.config
      ((minute 1, Op.trip_manual "stop") ∷ (minute 70, Op.reset false) ∷ [])

run-IsLatched_example :
    let d =
      run
        ((minute 6, Op.record_trade_result true)
          ∷ (minute 7, Op.update_balance (fixed.lit 10 0))
          ∷ [])
        tripped in
    (can_trade d ≡ (false, breaker_active (some TripReason.manual))) × IsLatched tripped d
run-IsLatched_example =
    run-IsLatched tripped
      ((minute 6, Op.record_trade_result true)
        ∷ (minute 7, Op.update_balance (fixed.lit 10 0))
        ∷ [])
      refl (tt, (tt, tt))

update_balance_checked_example : LimitsKept (update_balance (fixed.lit 990 0) (minute 1) start)
unfolding update_balance take_balance check_daily_reset record_loss check_drawdown_triggers
    check_rapid_loss_trigger trip
update_balance_checked_example = update_balance_checked (fixed.lit 990 0) (minute 1) start refl

first_day_blind_example :
    daily_drawdown (
      update_all
        ((minute 1, fixed.lit 1000 0) ∷ (minute 2, fixed.lit 100 0) ∷ [])
        (new start.config))
    ≡ pos 0
first_day_blind_example =
    first_day_blind start.config (fixed.lit 1000 0) (minute 1) ((minute 2, fixed.lit 100 0) ∷ [])
      refl (refl, tt)
