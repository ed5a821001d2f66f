-- ===== src/Aegis/Circuit/Invariant.antt =====
-- The circuit breaker through any history of calls.
use keryx_talos.Base.{
  All, Bool, true, is_some, arith, if_keeps, [], some, ◌+◌, ◌⊎◌, length-append, length, ℕ,
  microseconds_per_minute, ◌∷◌, refl, ◌≤◌, none, List, ◌*◌, false, ◌≡◌,
}
use keryx_talos.Number.{Number}
use keryx_talos.Aegis.Circuit.{
  closed, opened, daily_drawdown, breaker_active, CircuitBreaker, CircuitBreakerConfig, TripReason,
  Details, Op, is_tripped, trip, record_loss, check_daily_reset, check_drawdown_triggers,
  check_consecutive_losses, check_rapid_loss_trigger, take_balance, update_balance,
  record_trade_result, trip_manual, trip_on_error, reset, can_trade, apply, run, new,
}

module _ {N : Type 0} ⦃num : Number N⦄ where
  -- A breaker is closed with nothing recorded, or opened with a reason, a time and a trip on record.
  pub record IsValid (c : CircuitBreaker N) : Type 0 where
    pub closed_or_opened : (c.state ≡ closed) ⊎ (c.state ≡ opened)
    pub reason_iff : is_some c.trip_reason ≡ is_tripped c
    pub time_iff : is_some c.trip_time ≡ is_tripped c
    pub on_record : is_tripped c ≡ true → 1 ≤ length c.trip_events

  pub new-IsValid : (config : CircuitBreakerConfig N) → IsValid (new config)
  unfolding new
  new-IsValid config = ground arith

  trip-IsValid :
      (reason : TripReason) (details : Details N) (now : ℕ) (c : CircuitBreaker N)
      → IsValid c
      → IsValid (trip reason details now c)
  unfolding trip
  trip-IsValid reason details now c v = grind (arith, length-append)

  -- What `trip` keeps, each check keeps.
  abbrev pub SurvivesTrip : (CircuitBreaker N → Type 0) → Type 0
  SurvivesTrip P =
      (reason : TripReason) (details : Details N) (now : ℕ) (c : CircuitBreaker N)
      → P c
      → P (trip reason details now c)

  module _ (P : CircuitBreaker N → Type 0) (keeps : SurvivesTrip P) where
    check_drawdown_triggers-keeps :
        (now : ℕ) (c : CircuitBreaker N) → P c → P (check_drawdown_triggers now c)
    unfolding check_drawdown_triggers
    check_drawdown_triggers-keeps now c p =
        let q =
          if_keeps P (num.le c.config.max_daily_drawdown (daily_drawdown c)) (keeps _ _ now c p)
            p in
        if_keeps P _ (keeps _ _ now _ q) q

    check_rapid_loss_trigger-keeps :
        (now : ℕ) (c : CircuitBreaker N) → P c → P (check_rapid_loss_trigger now c)
    unfolding check_rapid_loss_trigger
    check_rapid_loss_trigger-keeps now c p = if_keeps P _ p (if_keeps P _ (keeps _ _ now c p) p)

    check_consecutive_losses-keeps :
        (now : ℕ) (c : CircuitBreaker N) → P c → P (check_consecutive_losses now c)
    unfolding check_consecutive_losses
    check_consecutive_losses-keeps now c p = if_keeps P _ (keeps _ _ now c p) p

    pub update_balance-keeps :
        (balance : N) (now : ℕ) (c : CircuitBreaker N)
        → P (take_balance balance now c)
        → P (update_balance balance now c)
    unfolding update_balance
    update_balance-keeps balance now c p =
        check_rapid_loss_trigger-keeps now _ (check_drawdown_triggers-keeps now _ p)

  take_balance-IsValid :
      (balance : N) (now : ℕ) (c : CircuitBreaker N)
      → IsValid c
      → IsValid (take_balance balance now c)
  unfolding take_balance check_daily_reset record_loss
  take_balance-IsValid balance now c v = ground arith

  record_trade_result-IsValid :
      (is_win : Bool) (now : ℕ) (c : CircuitBreaker N)
      → IsValid c
      → IsValid (record_trade_result is_win now c)
  unfolding record_trade_result
  record_trade_result-IsValid true now c v = ground arith
  record_trade_result-IsValid false now c v =
      check_consecutive_losses-keeps IsValid trip-IsValid now _ (ground arith)

  reset-IsValid :
      (force : Bool) (now : ℕ) (c : CircuitBreaker N) → IsValid c → IsValid (reset force now c).0
  unfolding reset
  reset-IsValid force now c v = ground arith

  -- Every call keeps the breaker valid.
  pub apply-IsValid :
      (op : Op N) (now : ℕ) (c : CircuitBreaker N) → IsValid c → IsValid (apply op now c)
  unfolding trip_manual trip_on_error
  apply-IsValid (Op.update_balance balance) now c v =
      update_balance-keeps IsValid trip-IsValid balance now c (take_balance-IsValid balance now c v)
  apply-IsValid (Op.record_trade_result is_win) now c v = record_trade_result-IsValid is_win now c v
  apply-IsValid (Op.trip_manual reason) now c v = trip-IsValid _ _ now c v
  apply-IsValid (Op.trip_on_error error) now c v = trip-IsValid _ _ now c v
  apply-IsValid (Op.reset force) now c v = reset-IsValid force now c v

  run-IsValid : (ops : List (ℕ × Op N)) (c : CircuitBreaker N) → IsValid c → IsValid (run ops c)
  unfolding run
  run-IsValid [] c v = v
  run-IsValid ((now, op) ∷ ops) c v = run-IsValid ops _ (apply-IsValid op now c v)

  -- A new breaker is valid after any calls: it is closed with no reason and no time, or opened with
  -- both and at least one trip on record; it is never half open.
  pub run-new-IsValid :
      (config : CircuitBreakerConfig N) (ops : List (ℕ × Op N)) → IsValid (run ops (new config))
  run-new-IsValid config ops = run-IsValid ops _ (new-IsValid config)

  -- The state that a trip leaves behind.
  pub record IsLatched (c d : CircuitBreaker N) : Type 0 where
    pub state_eq : d.state ≡ opened
    pub reason_eq : d.trip_reason ≡ c.trip_reason
    pub time_eq : d.trip_time ≡ c.trip_time
    pub events_eq : d.trip_events ≡ c.trip_events
    pub config_eq : d.config ≡ c.config

  trip-IsLatched :
      (c : CircuitBreaker N) (reason : TripReason) (details : Details N) (now : ℕ)
      (d : CircuitBreaker N)
      → IsLatched c d
      → IsLatched c (trip reason details now d)
  unfolding trip
  trip-IsLatched c reason details now d l = ground arith

  -- No call but a reset.
  abbrev pub IsUnreset : Op N → Type 0
  IsUnreset (Op.reset force) = ⊥
  IsUnreset _ = Unit

  apply-IsLatched :
      (c : CircuitBreaker N) (op : Op N) (now : ℕ) (d : CircuitBreaker N)
      → IsUnreset op
      → IsLatched c d
      → IsLatched c (apply op now d)
  unfolding trip_manual trip_on_error take_balance check_daily_reset record_loss record_trade_result
  apply-IsLatched c (Op.update_balance balance) now d u l =
      update_balance-keeps (IsLatched c) (trip-IsLatched c) balance now d (ground arith)
  apply-IsLatched c (Op.record_trade_result true) now d u l = ground arith
  apply-IsLatched c (Op.record_trade_result false) now d u l =
      check_consecutive_losses-keeps (IsLatched c) (trip-IsLatched c) now _ (ground arith)
  apply-IsLatched c (Op.trip_manual reason) now d u l = trip-IsLatched c _ _ now d l
  apply-IsLatched c (Op.trip_on_error error) now d u l = trip-IsLatched c _ _ now d l
  apply-IsLatched c (Op.reset force) now d u l = absurd u

  run_from-IsLatched :
      (c : CircuitBreaker N) (ops : List (ℕ × Op N)) (d : CircuitBreaker N)
      → All (λ e. IsUnreset e.1) ops
      → IsLatched c d
      → IsLatched c (run ops d)
  unfolding run
  run_from-IsLatched c [] d u l = l
  run_from-IsLatched c ((now, op) ∷ ops) d u l =
      run_from-IsLatched c ops _ u.1 (apply-IsLatched c op now d u.0 l)

  -- A tripped breaker blocks trading through any calls other than `reset`, for the reason and since
  -- the time of the first trip, and records no further trip.
  pub run-IsLatched :
      (c : CircuitBreaker N) (ops : List (ℕ × Op N))
      → c.state ≡ opened
      → All (λ e. IsUnreset e.1) ops
      → (can_trade (run ops c) ≡ (false, breaker_active c.trip_reason)) × IsLatched c (run ops c)
  unfolding can_trade
  run-IsLatched c ops h u =
      let l = run_from-IsLatched c ops c u (record {
        state_eq = h;
        reason_eq = refl;
        time_eq = refl;
        events_eq = refl;
        config_eq = refl;
      }) in
      (rw (l.state_eq, l.reason_eq), l)

  abbrev pub Cooled : CircuitBreaker N → ℕ → ℕ → Type 0
  Cooled c now t = t + c.config.cooldown_minutes * microseconds_per_minute ≤ now

  -- The two outcomes of a reset at `now` of a breaker that tripped at `t`.
  abbrev pub Resets : CircuitBreaker N → Bool → ℕ → ℕ → CircuitBreaker N × Bool → Type 0
  Resets c force now t (d, true) =
      ((force ≡ true) ⊎ Cooled c now t)
      × (d.state ≡ closed)
      × (d.trip_reason ≡ none)
      × (d.trip_time ≡ none)
      × (d.consecutive_losses ≡ 0)
      × (d.recent_losses ≡ [])
      × (d.trip_events ≡ c.trip_events)
  Resets c force now t (d, false) = (force ≡ false) × ¬ Cooled c now t × (d ≡ c)

  -- A reset of a tripped breaker is refused only where it is not forced and the cooldown since the
  -- trip has not passed, and then changes nothing; it succeeds only where it is forced or the
  -- cooldown has passed, and then the breaker is closed, with no reason, no time, no losses counted,
  -- and the trips still on record.
  pub reset_lem :
      (force : Bool) (now t : ℕ) (c : CircuitBreaker N)
      → c.state ≡ opened
      → c.trip_time ≡ some t
      → Resets c force now t (reset force now c)
  unfolding reset
  reset_lem force now t c h e = ground arith
