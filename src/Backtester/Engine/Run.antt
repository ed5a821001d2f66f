-- ===== src/Backtester/Engine/Run.antt =====
-- keryxflow/backtester/engine.py: `run`. `clock` gives the time of the wall clock while a timestamp of
-- the data is processed, and `ending` when the last positions are closed.
use keryx_talos.Base.{
  map, ltb, length, ◌&&◌, leb, ◌==◌, keep, Bool, ◌++◌, if◌then◌else◌, back, ◌∷◌, [], none, some,
  true, false, ℕ, String, List, Option,
}
use keryx_talos.Base.Dict.{Dict, lookup}
use keryx_talos.Base.Result.{Result, Exception, ok, ◌>>=◌, ◌>>◌, or_raise, raise_if}
use keryx_talos.Number.{Number, Conversion}
use keryx_talos.Backtester.Engine.{
  multi, single, Bar, Generator, MarketData, BacktestEngine, close_position, calculate_equity,
}
use keryx_talos.Aegis.Risk.{update_balance}
use keryx_talos.Backtester.Engine.Candles.{
  get_of, get_primary_timeframe_data, process_frames, process_mtf_frames,
}

-- `sorted` of the set of the timestamps.
abbrev pub insert_time : ℕ → List ℕ → List ℕ
insert_time t [] = t ∷ []
insert_time t (u ∷ us) =
    let rest = insert_time t us in
    if t == u then u ∷ us else if ltb t u then t ∷ u ∷ us else u ∷ rest

abbrev pub insert_times : {N : Type 0} → List (Bar N) → List ℕ → List ℕ
insert_times [] ts = ts
insert_times (b ∷ bs) ts = insert_time b.datetime (insert_times bs ts)

abbrev pub all_timestamps : {N : Type 0} → Dict (List (Bar N)) → List ℕ
all_timestamps [] = []
all_timestamps ((symbol, df) ∷ d) = insert_times df (all_timestamps d)

-- "Filter by start/end"
abbrev pub is_from : Option ℕ → ℕ → Bool
is_from none t = true
is_from (some start) t = leb start t

abbrev pub is_until : Option ℕ → ℕ → Bool
is_until none t = true
is_until (some end_time) t = leb t end_time

abbrev pub replace_last {ℓ} : {A : Type ℓ} → A → List A → List A
replace_last a [] = []
replace_last a (x ∷ []) = a ∷ []
replace_last a (x ∷ y ∷ ys) = x ∷ replace_last a (y ∷ ys)

module _ {N : Type 0} where
  abbrev pub is_empty : MarketData N → Bool
  is_empty (single []) = true
  is_empty (single (e ∷ d)) = false
  is_empty (multi []) = true
  is_empty (multi (e ∷ d)) = false

  abbrev pub timestamps_of : Option String → MarketData N → List ℕ
  timestamps_of primary (single d) = all_timestamps d
  timestamps_of primary (multi d) = all_timestamps (get_primary_timeframe_data primary d)

  -- `market[symbol]`, or its primary timeframe, if it has one.
  abbrev pub last_frame : Option String → String → MarketData N → Result (Option (List (Bar N)))
  last_frame primary symbol (single d) =
      or_raise (lookup symbol d) Exception.key_error >>= λ df. ok (some df)
  last_frame primary symbol (multi d) =
      or_raise (lookup symbol d) Exception.key_error >>= λ tf_data. ok (get_of primary tf_data)

module _ {N : Type 0} {D : Type 0} ⦃num : Number N⦄ ⦃dec : Number D⦄ ⦃conv : Conversion N D⦄ where
  -- "Reset state"
  abbrev pub reset : BacktestEngine N D → BacktestEngine N D
  reset e = record e {
    balance = e.initial_balance;
    positions = [];
    trades = [];
    equity_curve = e.initial_balance ∷ [];
  }

  abbrev pub process_data :
      Generator N → ℕ → ℕ → MarketData N → BacktestEngine N D → Result (BacktestEngine N D)
  process_data generate timestamp now (single d) e = process_frames generate timestamp now d e
  process_data generate timestamp now (multi d) e = process_mtf_frames generate timestamp now d e

  -- The loop over the positions that are liquidated; each symbol has one.
  unfoldable pub liquidate : List String → ℕ → BacktestEngine N D → BacktestEngine N D
  liquidate [] now e = e
  liquidate (symbol ∷ symbols) now e = liquidate symbols now (elim (lookup symbol e.positions) [
    | none ↦ e
    | some p ↦ close_position symbol p.current_price "liquidation" now e
  ])

  -- "Check for forced liquidation (margin call simulation)"
  unfoldable pub check_liquidation : N → ℕ → BacktestEngine N D → BacktestEngine N D
  check_liquidation total_equity now e =
      if num.le total_equity (num.mul e.initial_balance (num.lit 1 2)) && ltb 0 (length e.positions)
      then (let e₁ = liquidate (map (λ q. q.0) e.positions) now e in
          record e₁ { equity_curve = replace_last (calculate_equity e₁) e₁.equity_curve })
      else e

  -- What follows the symbols of a timestamp. With nothing liquidated the equity is still
  -- `total_equity`.
  unfoldable pub finish_timestamp : ℕ → BacktestEngine N D → BacktestEngine N D
  finish_timestamp now e =
      let total_equity = calculate_equity e in
      let e₁ =
        check_liquidation total_equity now
          (record e { equity_curve = e.equity_curve ++ (total_equity ∷ []) }) in
      record e₁ { risk_manager = update_balance (calculate_equity e₁) e₁.risk_manager }

  -- The body of the loop over the timestamps.
  unfoldable pub process_timestamp :
      Generator N → (ℕ → ℕ) → MarketData N → ℕ → BacktestEngine N D → Result (BacktestEngine N D)
  process_timestamp generate clock market timestamp e =
      process_data generate timestamp (clock timestamp) market
        (record e { current_time = some timestamp })
      >>= λ e₁. ok (finish_timestamp (clock timestamp) e₁)

  unfoldable pub process_all :
      Generator N
      → (ℕ → ℕ)
      → MarketData N
      → List ℕ
      → BacktestEngine N D
      → Result (BacktestEngine N D)
  process_all generate clock market [] e = ok e
  process_all generate clock market (t ∷ ts) e =
      process_timestamp generate clock market t e >>= λ e₁. process_all generate clock market ts e₁

  -- The body of the loop that closes the positions that are left.
  abbrev pub close_last :
      Option (List (Bar N)) → String → ℕ → BacktestEngine N D → Result (BacktestEngine N D)
  close_last none symbol ending e = ok e
  close_last (some df) symbol ending e = or_raise (back df) Exception.index_error >>= λ bar.
      ok (close_position symbol bar.close "end" ending e)

  -- "Close any remaining positions at end"
  unfoldable pub close_remaining :
      MarketData N → ℕ → List String → BacktestEngine N D → Result (BacktestEngine N D)
  close_remaining market ending [] e = ok e
  close_remaining market ending (symbol ∷ symbols) e =
      last_frame e.primary_timeframe symbol market >>= λ last_df.
      close_last last_df symbol ending e >>= λ e₁. close_remaining market ending symbols e₁

  -- `run`, less the figures of its result.
  unfoldable pub run :
      Generator N
      → (ℕ → ℕ)
      → ℕ
      → MarketData N
      → Option ℕ
      → Option ℕ
      → BacktestEngine N D
      → Result (BacktestEngine N D)
  run generate clock ending market start end_time e =
      let timestamps =
        keep (is_until end_time)
          (keep (is_from start) (timestamps_of e.primary_timeframe market)) in
      raise_if (is_empty market) Exception.value_error
      >> raise_if (leb (length timestamps) 0) Exception.value_error
      >> process_all generate clock market timestamps (reset e)
      >>= λ e₁. close_remaining market ending (map (λ q. q.0) e₁.positions) e₁
