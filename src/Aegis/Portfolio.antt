-- ===== src/Aegis/Portfolio.antt =====
-- keryxflow/aegis/portfolio.py: `PositionState` and `PortfolioState`. `D` are the values of
-- `Decimal`, `N` the floats. A method returns the new portfolio. The time stamps, which nothing
-- tests, are left out.
pub mod Accounting
pub mod Positions
pub mod Trades
mod Tests
mod State
pub use State.*
use keryx_talos.Base.{
  String, zero, suc, sell, Option-cases, ◌^◌, sym, ◌||◌, not, str_eq, ◌↔◌, eq_iff, leb→le, some,
  buy, arith, ◌+◌, Option, ◌&&◌, ◌*◌, eq_refl, inr, keep, true, ltb, ◌∷◌, subst, All-append, ◌∙◌,
  List, Bool, ◌%◌, le→leb, ◌⊎◌, Bool-cases, if◌then◌else◌, All-keep, Side, ◌==◌, map, ◌≡◌, ◌++◌,
  is_some, if_keeps, false, [], ◌≤◌, max, ◌<◌, ◌-◌, get_elem?, length, ◌/◌, ap, refl, ◌≢◌, lt→ltb,
  inl, All, none, leb, length-append, ℕ,
}
use keryx_talos.Base.Dict.{Dict, lookup}
use keryx_talos.Number.{Number, Conversion, nought, larger, sum_from}

abbrev pub to_list {ℓ} : {A : Type ℓ} → Option A → List A
to_list none = []
to_list (some a) = a ∷ []

module _ {D : Type 0} ⦃dec : Number D⦄ where
  open dec use {add, sub, mul, quot, lt, eqb}

  abbrev pub is_long : PositionState D → Bool
  is_long p = str_eq p.side "long"

  abbrev pub position_value : PositionState D → D
  position_value p = mul p.quantity p.current_price

  abbrev pub entry_value : PositionState D → D
  entry_value p = mul p.quantity p.entry_price

  -- `PositionState.unrealized_pnl`
  abbrev pub unrealized_pnl : PositionState D → D
  unrealized_pnl p =
      if is_long p
      then mul (sub p.current_price p.entry_price) p.quantity
      else mul (sub p.entry_price p.current_price) p.quantity

  pub unrealized_pnl_pct : PositionState D → D
  unrealized_pnl_pct p =
      if eqb (entry_value p) nought then nought else quot (unrealized_pnl p) (entry_value p)

  unfoldable pub risk_to_stop : PositionState D → D
  risk_to_stop p = elim p.stop_loss [
    | none ↦ position_value p
    | some stop ↦
        mul (larger nought (if is_long p then sub p.entry_price stop else sub stop p.entry_price))
          p.quantity
  ]

  pub reward_to_target : PositionState D → D
  reward_to_target p = elim p.take_profit [
    | none ↦ nought
    | some target ↦
        mul
          (larger nought (if is_long p then sub target p.entry_price else sub p.entry_price target))
          p.quantity
  ]

  pub risk_reward_ratio : PositionState D → Option D
  unfolding risk_to_stop reward_to_target
  risk_reward_ratio p =
      if is_some p.take_profit && is_some p.stop_loss && not (eqb (risk_to_stop p) nought)
      then some (quot (reward_to_target p) (risk_to_stop p))
      else none

  abbrev pub total_exposure : PortfolioState D → D
  total_exposure s = sum_from nought (map position_value s.positions)

  abbrev pub total_risk_at_stop : PortfolioState D → D
  total_risk_at_stop s = sum_from nought (map risk_to_stop s.positions)

  -- `exposure_pct`, `risk_at_stop_pct` and `cash_reserve_pct` divide by the total value.
  abbrev share_of_total : PortfolioState D → D → D
  share_of_total s x = if eqb s.total_value nought then nought else quot x s.total_value

  pub exposure_pct : PortfolioState D → D
  exposure_pct s = share_of_total s (total_exposure s)

  pub risk_at_stop_pct : PortfolioState D → D
  unfolding risk_to_stop
  risk_at_stop_pct s = share_of_total s (total_risk_at_stop s)

  pub cash_reserve_pct : PortfolioState D → D
  cash_reserve_pct s = share_of_total s s.cash_available

  pub drawdown_pct : PortfolioState D → D
  drawdown_pct s =
      if eqb s.peak_value nought then nought else quot (sub s.peak_value s.total_value) s.peak_value

  abbrev pub position_count : PortfolioState D → ℕ
  position_count s = length s.positions

  -- `_update_total_value`
  unfoldable pub update_total_value : PortfolioState D → PortfolioState D
  update_total_value s =
      let total = add s.cash_available (total_exposure s) in
      record s {
        total_value = total;
        peak_value = if lt s.peak_value total then total else s.peak_value;
      }

  unfoldable pub add_position : PositionState D → PortfolioState D → PortfolioState D
  add_position p s = update_total_value (record s {
    positions = s.positions ++ (p ∷ []);
    cash_available = sub s.cash_available (entry_value p);
    trades_today = s.trades_today + 1;
    trades_this_hour = s.trades_this_hour + 1;
  })

  -- The first position of a symbol, and the positions without it.
  unfoldable pub find_position : String → List (PositionState D) → Option (PositionState D)
  find_position symbol [] = none
  find_position symbol (p ∷ ps) = if str_eq p.symbol symbol then some p else find_position symbol ps

  unfoldable pub pop_position : String → List (PositionState D) → List (PositionState D)
  pop_position symbol [] = []
  pop_position symbol (p ∷ ps) = if str_eq p.symbol symbol then ps else p ∷ pop_position symbol ps

  pub get_position : String → PortfolioState D → Option (PositionState D)
  unfolding find_position
  get_position symbol s = find_position symbol s.positions

  -- The block of `close_position` on the position that it finds, with the price set.
  unfoldable pub settle : String → PositionState D → PortfolioState D → PortfolioState D
  settle symbol pos s =
      let realized_pnl = unrealized_pnl pos in
      update_total_value (record s {
        cash_available = add s.cash_available (add (entry_value pos) realized_pnl);
        daily_pnl = add s.daily_pnl realized_pnl;
        weekly_pnl = add s.weekly_pnl realized_pnl;
        consecutive_losses = if lt realized_pnl nought then s.consecutive_losses + 1 else 0;
        positions = pop_position symbol s.positions;
      })

  abbrev pub priced : D → PositionState D → PositionState D
  priced price p = record p { current_price = price }

  pub reset_daily : PortfolioState D → PortfolioState D
  reset_daily s = record s {
    daily_starting_value = s.total_value;
    daily_pnl = nought;
    trades_today = 0;
  }

  pub reset_weekly : PortfolioState D → PortfolioState D
  reset_weekly s = record s { weekly_starting_value = s.total_value; weekly_pnl = nought }

  pub reset_hourly : PortfolioState D → PortfolioState D
  reset_hourly s = record s { trades_this_hour = 0 }

  pub reset_consecutive_losses : PortfolioState D → PortfolioState D
  reset_consecutive_losses s = record s { consecutive_losses = 0 }

  module _ {N : Type 0} ⦃conv : Conversion N D⦄ where
    open conv use {decimal}

    unfoldable pub close_position : String → N → PortfolioState D → PortfolioState D × Option D
    close_position symbol exit_price s = elim (find_position symbol s.positions) [
      | none ↦ (s, none)
      | some pos ↦
          let sold = priced (decimal exit_price) pos in
          (settle symbol sold s, some (unrealized_pnl sold))
    ]

    -- `PositionState.update_price`, for a symbol that the dict of prices has
    abbrev pub reprice : Dict N → PositionState D → PositionState D
    reprice prices p = elim (lookup p.symbol prices) [
      | none ↦ p
      | some price ↦ priced (decimal price) p
    ]

    pub update_prices : Dict N → PortfolioState D → PortfolioState D
    update_prices prices s =
        update_total_value (record s { positions = map (reprice prices) s.positions })

    unfoldable pub create_portfolio_state : N → PortfolioState D
    create_portfolio_state initial_balance =
        let balance = decimal initial_balance in
        record {
          total_value = balance;
          cash_available = balance;
          peak_value = balance;
          positions = [];
          daily_starting_value = balance;
          daily_pnl = nought;
          trades_today = 0;
          weekly_starting_value = balance;
          weekly_pnl = nought;
          trades_this_hour = 0;
          consecutive_losses = 0;
        }

    -- The calls that change the portfolio, with the profits that they realize, newest first.
    abbrev pub apply : Op N D → PortfolioState D → PortfolioState D × List D
    apply (Op.add_position position) s = (add_position position s, [])
    apply (Op.close_position symbol exit_price) s =
        let (s', pnl) = close_position symbol exit_price s in (s', to_list pnl)
    apply (Op.update_prices prices) s = (update_prices prices s, [])
    apply Op.reset_daily s = (reset_daily s, [])
    apply Op.reset_weekly s = (reset_weekly s, [])
    apply Op.reset_hourly s = (reset_hourly s, [])
    apply Op.reset_consecutive_losses s = (reset_consecutive_losses s, [])

    pub run : List (Op N D) → PortfolioState D → PortfolioState D × List D
    run [] s = (s, [])
    run (op ∷ ops) s =
        let (s₁, now) = apply op s in let (s₂, later) = run ops s₁ in (s₂, now ++ later)
