-- ===== src/Aegis/Circuit.antt =====
-- keryxflow/aegis/circuit.py: `class CircuitBreaker`. A method takes the time of its call and
-- returns the new breaker. Times count microseconds.
mod State
pub mod Invariant
pub mod Triggers
mod Tests
pub use State.*
use keryx_talos.Base.{
  ◌==◌, le→leb, sell, ◌≤◌, ◌∙◌, List, if◌then◌else◌, buy, ap, inl, ◌∷◌, lt→ltb,
  microseconds_per_day, All-keep, suc, ◌%◌, same_date, ◌++◌, str_eq, Option-cases, ◌⊎◌, if_keeps,
  ◌+◌, ◌/◌, map, subst, Option, false, keep, eq_refl, is_some, String, sym, not, some, true, ◌&&◌,
  refl, ◌≡◌, All, ◌↔◌, ltb, Bool, ℕ, ◌≢◌, [], leb, max, none, Side, microseconds_per_minute,
  Bool-cases, length-append, ◌*◌, arith, get_elem?, eq_iff, date_of, zero, ◌-◌, leb→le, All-append,
  microseconds_per_second, ◌<◌, inr, ◌^◌, ◌||◌, length,
}
use keryx_talos.Number.{Number, nought, sum_from}

abbrev pub is_opened : CircuitState → Bool
is_opened CircuitState.opened = true
is_opened CircuitState.closed = false
is_opened CircuitState.half_open = false

module _ {N : Type 0} ⦃num : Number N⦄ where
  open num use {lit, sub, quot, lt, le}

  pub default_config : CircuitBreakerConfig N
  default_config = record {
    max_daily_drawdown = lit 5 2;
    max_total_drawdown = lit 15 2;
    max_consecutive_losses = 5;
    rapid_loss_threshold = lit 3 2;
    rapid_loss_window_minutes = 30;
    cooldown_minutes = 60;
    require_manual_reset = true;
    warning_drawdown = lit 3 2;
  }

  pub new : CircuitBreakerConfig N → CircuitBreaker N
  new config = record {
    config = config;
    state = CircuitState.closed;
    trip_reason = none;
    trip_time = none;
    trip_events = [];
    consecutive_losses = 0;
    recent_losses = [];
    peak_balance = nought;
    current_balance = nought;
    daily_starting_balance = nought;
    last_reset_date = none;
  }

  abbrev pub is_tripped : CircuitBreaker N → Bool
  is_tripped c = is_opened c.state

  abbrev pub daily_drawdown : CircuitBreaker N → N
  daily_drawdown c =
      if le c.daily_starting_balance nought
      then nought
      else quot (sub c.daily_starting_balance c.current_balance) c.daily_starting_balance

  abbrev pub total_drawdown : CircuitBreaker N → N
  total_drawdown c =
      if le c.peak_balance nought
      then nought
      else quot (sub c.peak_balance c.current_balance) c.peak_balance

  -- `_trip`
  pub trip : TripReason → Details N → ℕ → CircuitBreaker N → CircuitBreaker N
  trip reason details now c = if is_tripped c then c else record c {
    state = CircuitState.opened;
    trip_reason = some reason;
    trip_time = some now;
    trip_events =
        c.trip_events
        ++ (record {
          timestamp = now;
          reason = reason;
          details = details;
          balance_at_trip = c.current_balance;
          drawdown_at_trip = daily_drawdown c;
        }
            ∷ []);
  }

  -- `_record_loss`: a loss stays on the list while it is younger than the window.
  pub record_loss : N → ℕ → CircuitBreaker N → CircuitBreaker N
  record_loss loss_pct now c =
      let window = c.config.rapid_loss_window_minutes * microseconds_per_minute in
      record c {
        recent_losses =
            keep (λ e. ltb now (e.0 + window)) (c.recent_losses ++ ((now, loss_pct) ∷ []));
      }

  -- `_check_daily_reset`
  pub check_daily_reset : ℕ → CircuitBreaker N → CircuitBreaker N
  check_daily_reset now c = if same_date c.last_reset_date (date_of now) then c else record c {
    daily_starting_balance = c.current_balance;
    last_reset_date = some (date_of now);
    consecutive_losses = 0;
    recent_losses = [];
  }

  -- `_check_drawdown_triggers`, less its warning in the log
  pub check_drawdown_triggers : ℕ → CircuitBreaker N → CircuitBreaker N
  check_drawdown_triggers now c =
      let c₁ =
        if le c.config.max_daily_drawdown (daily_drawdown c)
        then trip TripReason.daily_drawdown
            (daily_limit (daily_drawdown c) c.config.max_daily_drawdown) now c
        else c in
      if le c₁.config.max_total_drawdown (total_drawdown c₁)
      then trip TripReason.daily_drawdown
          (total_limit (total_drawdown c₁) c₁.config.max_total_drawdown) now c₁
      else c₁

  -- `_check_consecutive_losses`
  pub check_consecutive_losses : ℕ → CircuitBreaker N → CircuitBreaker N
  check_consecutive_losses now c =
      if leb c.config.max_consecutive_losses c.consecutive_losses
      then trip TripReason.consecutive_losses (losses_in_row c.consecutive_losses) now c
      else c

  abbrev pub total_recent_loss : CircuitBreaker N → N
  total_recent_loss c = sum_from nought (map (λ e. e.1) c.recent_losses)

  abbrev is_empty : List (ℕ × N) → Bool
  is_empty [] = true
  is_empty (x ∷ xs) = false

  -- `_check_rapid_loss_trigger`
  pub check_rapid_loss_trigger : ℕ → CircuitBreaker N → CircuitBreaker N
  check_rapid_loss_trigger now c =
      if is_empty c.recent_losses
      then c
      else if le c.config.rapid_loss_threshold (total_recent_loss c)
      then trip TripReason.rapid_losses
          (lost_in_minutes (total_recent_loss c) c.config.rapid_loss_window_minutes) now c
      else c

  abbrev with_balance : N → CircuitBreaker N → CircuitBreaker N
  with_balance balance c = record c {
    current_balance = balance;
    peak_balance = if lt c.peak_balance balance then balance else c.peak_balance;
  }

  -- The part of `update_balance` before the triggers are checked.
  pub take_balance : N → ℕ → CircuitBreaker N → CircuitBreaker N
  take_balance balance now c =
      let c₁ = check_daily_reset now c in
      let old_balance = c₁.current_balance in
      let c₂ = with_balance balance c₁ in
      if lt balance old_balance && lt nought old_balance
      then record_loss (quot (sub old_balance balance) old_balance) now c₂
      else c₂

  pub update_balance : N → ℕ → CircuitBreaker N → CircuitBreaker N
  update_balance balance now c =
      check_rapid_loss_trigger now (check_drawdown_triggers now (take_balance balance now c))

  pub record_trade_result : Bool → ℕ → CircuitBreaker N → CircuitBreaker N
  record_trade_result true now c = record c { consecutive_losses = 0 }
  record_trade_result false now c =
      check_consecutive_losses now (record c { consecutive_losses = c.consecutive_losses + 1 })

  pub trip_manual : String → ℕ → CircuitBreaker N → CircuitBreaker N
  trip_manual reason = trip TripReason.manual (text reason)

  pub trip_on_error : String → ℕ → CircuitBreaker N → CircuitBreaker N
  trip_on_error error = trip TripReason.system_error (text error)

  abbrev reset_state : CircuitBreaker N → CircuitBreaker N
  reset_state c = record c {
    state = CircuitState.closed;
    trip_reason = none;
    trip_time = none;
    consecutive_losses = 0;
    recent_losses = [];
  }

  -- `now < cooldown_end`; no cooldown is checked without a trip time
  abbrev pub is_cooling : CircuitBreaker N → Option ℕ → ℕ → Bool
  is_cooling c none now = false
  is_cooling c (some t) now = ltb now (t + c.config.cooldown_minutes * microseconds_per_minute)

  pub reset : Bool → ℕ → CircuitBreaker N → CircuitBreaker N × Bool
  reset force now c =
      if not (is_tripped c)
      then (c, true)
      else if not force && is_cooling c c.trip_time now
      then (c, false)
      else (reset_state c, true)

  pub can_trade : CircuitBreaker N → Bool × Advice N
  can_trade c =
      if is_tripped c
      then (false, breaker_active c.trip_reason)
      else if le c.config.warning_drawdown (daily_drawdown c)
      then (true, drawdown_warning (daily_drawdown c))
      else (true, trading_allowed)

  -- The calls that change a breaker, each with its arguments.
  abbrev pub apply : Op N → ℕ → CircuitBreaker N → CircuitBreaker N
  apply (Op.update_balance balance) now c = update_balance balance now c
  apply (Op.record_trade_result is_win) now c = record_trade_result is_win now c
  apply (Op.trip_manual reason) now c = trip_manual reason now c
  apply (Op.trip_on_error error) now c = trip_on_error error now c
  apply (Op.reset force) now c = (reset force now c).0

  pub run : List (ℕ × Op N) → CircuitBreaker N → CircuitBreaker N
  run [] c = c
  run ((now, op) ∷ ops) c = run ops (apply op now c)
