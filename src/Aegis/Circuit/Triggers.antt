-- ===== src/Aegis/Circuit/Triggers.antt =====
-- When the circuit breaker trips.
use keryx_talos.Aegis.Circuit.Invariant.{update_balance-keeps}
use keryx_talos.Aegis.Circuit.{
  total_drawdown, opened, Details, total_recent_loss, record_loss, new, check_consecutive_losses,
  is_tripped, check_daily_reset, TripReason, nought, daily_drawdown, closed, update_balance,
  take_balance, trip, CircuitBreakerConfig, record_trade_result, check_rapid_loss_trigger,
  CircuitBreaker, check_drawdown_triggers,
}
use keryx_talos.Base.{
  ◌∷◌, false, ◌≡◌, length, date_of, inl, ◌+◌, [], ◌∙◌, List, ◌⊎◌, sym, arith, ◌<◌, true, le→leb,
  leb, All, some, ℕ, inr, ◌≤◌,
}
use keryx_talos.Number.{Number}

module _ {N : Type 0} ⦃num : Number N⦄ where
  -- A check that leaves the breaker closed has changed nothing, and found no limit reached.
  check_rapid_loss_trigger_closed :
      (now : ℕ) (c : CircuitBreaker N)
      → is_tripped (check_rapid_loss_trigger now c) ≡ false
      → (check_rapid_loss_trigger now c ≡ c)
        × ((c.recent_losses ≡ [])
            ⊎ (num.le c.config.rapid_loss_threshold (total_recent_loss c) ≡ false))
  unfolding check_rapid_loss_trigger trip
  check_rapid_loss_trigger_closed now c h = ground arith

  check_drawdown_triggers_closed :
      (now : ℕ) (c : CircuitBreaker N)
      → is_tripped (check_drawdown_triggers now c) ≡ false
      → (check_drawdown_triggers now c ≡ c)
        × (num.le c.config.max_daily_drawdown (daily_drawdown c) ≡ false)
        × (num.le c.config.max_total_drawdown (total_drawdown c) ≡ false)
  unfolding check_drawdown_triggers trip
  check_drawdown_triggers_closed now c h = ground arith

  abbrev pub LimitsKept : CircuitBreaker N → Type 0
  LimitsKept d =
      (num.le d.config.max_daily_drawdown (daily_drawdown d) ≡ false)
      × (num.le d.config.max_total_drawdown (total_drawdown d) ≡ false)
      × ((d.recent_losses ≡ [])
          ⊎ (num.le d.config.rapid_loss_threshold (total_recent_loss d) ≡ false))

  -- After a balance update that leaves the breaker closed, the daily drawdown, the total drawdown
  -- and the sum of the recent losses (where there are any) are each not at or over their limit.
  pub update_balance_checked :
      (balance : N) (now : ℕ) (c : CircuitBreaker N)
      → is_tripped (update_balance balance now c) ≡ false
      → LimitsKept (update_balance balance now c)
  unfolding update_balance
  update_balance_checked balance now c h =
      let c₁ = take_balance balance now c in
      let rapid = check_rapid_loss_trigger_closed now (check_drawdown_triggers now c₁) h in
      let h₂ : is_tripped (check_drawdown_triggers now c₁) ≡ false = rw rapid.0 at h in
      let drawn = check_drawdown_triggers_closed now c₁ h₂ in
      rw rapid.0 (rw drawn.0 (drawn.1, drawn.2, rw drawn.0 at rapid.1))

  -- The calls `record_trade_result(False)` at the given times.
  pub lose : List ℕ → CircuitBreaker N → CircuitBreaker N
  lose [] c = c
  lose (now ∷ times) c = lose times (record_trade_result false now c)

  lose_tripped :
      (times : List ℕ) (c : CircuitBreaker N) → c.state ≡ opened → is_tripped (lose times c) ≡ true
  unfolding lose record_trade_result check_consecutive_losses trip
  lose_tripped [] c h = ground arith
  lose_tripped (now ∷ times) c h = lose_tripped times _ (ground arith)

  lose_one :
      (now : ℕ) (c : CircuitBreaker N)
      → c.state ≡ closed
      → let d = record_trade_result false now c in
        ((c.config.max_consecutive_losses ≤ c.consecutive_losses + 1) × (d.state ≡ opened))
        ⊎ ((c.consecutive_losses + 1 < c.config.max_consecutive_losses)
            × (d.state ≡ closed)
            × (d.consecutive_losses ≡ c.consecutive_losses + 1)
            × (d.config ≡ c.config))
  unfolding record_trade_result check_consecutive_losses trip
  lose_one now c h = ground arith

  -- A closed breaker that records some losing trades in a row is tripped exactly when the losses
  -- counted before and these together reach the configured number.
  pub lose_trips :
      (now : ℕ) (times : List ℕ) (c : CircuitBreaker N)
      → c.state ≡ closed
      → is_tripped (lose (now ∷ times) c)
        ≡ leb c.config.max_consecutive_losses (c.consecutive_losses + length (now ∷ times))
  unfolding lose
  lose_trips now [] c h = ground (arith, lose_one now c h)
  lose_trips now (next ∷ times) c h = elim (lose_one now c h) [
    | inl (over, e) ↦ lose_tripped (next ∷ times) _ e ∙ sym (le→leb _ _ (omega arith))
    | inr (under, e, n, k) ↦
        let ih = lose_trips next times (record_trade_result false now c) e in
        rw ih (rw (n, k) (ground arith))
  ]

  -- The calls `update_balance(balance)` at the given times.
  pub update_all : List (ℕ × N) → CircuitBreaker N → CircuitBreaker N
  update_all [] c = c
  update_all ((now, balance) ∷ us) c = update_all us (update_balance balance now c)

  -- On the given day, the starting balance of the day is taken as 0.
  record IsBlind (today : ℕ) (c : CircuitBreaker N) : Type 0 where
    pub start_eq : c.daily_starting_balance ≡ nought
    pub date_eq : c.last_reset_date ≡ some today

  trip-IsBlind :
      (today : ℕ) (reason : TripReason) (details : Details N) (now : ℕ) (c : CircuitBreaker N)
      → IsBlind today c
      → IsBlind today (trip reason details now c)
  unfolding trip
  trip-IsBlind today reason details now c b = ground arith

  update_balance-IsBlind :
      (today : ℕ) (balance : N) (now : ℕ) (c : CircuitBreaker N)
      → date_of now ≡ today
      → IsBlind today c
      → IsBlind today (update_balance balance now c)
  unfolding take_balance check_daily_reset record_loss
  update_balance-IsBlind today balance now c e b =
      update_balance-keeps (IsBlind today) (trip-IsBlind today) balance now c (ground arith)

  update_all-IsBlind :
      (today : ℕ) (us : List (ℕ × N)) (c : CircuitBreaker N)
      → All (λ u. date_of u.0 ≡ today) us
      → IsBlind today c
      → IsBlind today (update_all us c)
  unfolding update_all
  update_all-IsBlind today [] c e b = b
  update_all-IsBlind today ((now, balance) ∷ us) c e b =
      update_all-IsBlind today us _ e.1 (update_balance-IsBlind today balance now c e.0 b)

  first_update-IsBlind :
      (config : CircuitBreakerConfig N) (balance : N) (now : ℕ)
      → IsBlind (date_of now) (update_balance balance now (new config))
  unfolding take_balance check_daily_reset record_loss new
  first_update-IsBlind config balance now =
      update_balance-keeps (IsBlind (date_of now)) (trip-IsBlind (date_of now)) balance now
        (new config) (ground arith)

  -- On the calendar day of its first balance update a new breaker sees a daily drawdown of 0 after
  -- every update, whatever the balances are.
  pub first_day_blind :
      (config : CircuitBreakerConfig N) (balance : N) (now : ℕ) (us : List (ℕ × N))
      → num.le nought nought ≡ true
      → All (λ u. date_of u.0 ≡ date_of now) us
      → daily_drawdown (update_all ((now, balance) ∷ us) (new config)) ≡ nought
  unfolding update_all
  first_day_blind config balance now us z e =
      let b = update_all-IsBlind (date_of now) us _ e (first_update-IsBlind config balance now) in
      rw (b.start_eq, z)

  -- A day that began at the given balance, with no trade lost in it.
  pub record IsNewDay (start : N) (today : ℕ) (d : CircuitBreaker N) : Type 0 where
    pub start_eq : d.daily_starting_balance ≡ start
    pub date_eq : d.last_reset_date ≡ some today
    pub losses_eq : d.consecutive_losses ≡ 0
    pub recent_le : length d.recent_losses ≤ 1

  trip-IsNewDay :
      (start : N) (today : ℕ) (reason : TripReason) (details : Details N) (now : ℕ)
      (c : CircuitBreaker N)
      → IsNewDay start today c
      → IsNewDay start today (trip reason details now c)
  unfolding trip
  trip-IsNewDay start today reason details now c b = ground arith

  -- The first update on a later day starts the day at the balance of the last update, and forgets
  -- the losses of the day before: at most the loss of this very update is listed.
  pub next_day_starts :
      (balance : N) (now day : ℕ) (c : CircuitBreaker N)
      → c.last_reset_date ≡ some day
      → day < date_of now
      → IsNewDay c.current_balance (date_of now) (update_balance balance now c)
  unfolding take_balance check_daily_reset record_loss
  next_day_starts balance now day c e later =
      update_balance-keeps (IsNewDay c.current_balance (date_of now))
        (trip-IsNewDay c.current_balance (date_of now)) balance now c (ground arith)
