-- ===== src/Backtester/Engine/Candles.antt =====
-- keryxflow/backtester/engine.py: a candle, and the symbols of one time.
use keryx_talos.Base.{
  back, length, ltb, ◌∷◌, [], none, leb, is_some, some, if◌then◌else◌, keep, ℕ, String, List,
  Option,
}
use keryx_talos.Base.Dict.{Dict, lookup, insert}
use keryx_talos.Base.Result.{Result, Exception, ok, raised, ◌>>=◌, or_raise}
use keryx_talos.Number.{Number, Conversion}
use keryx_talos.Backtester.Engine.{
  Bar, Ohlcv, Generator, BacktestEngine, BacktestPosition, check_stops, process_signal,
}

-- `d.get(key)`, where the key may be `None`.
abbrev pub get_of {ℓ} : {V : Type ℓ} → Option String → Dict V → Option V
get_of none d = none
get_of (some k) d = lookup k d

module _ {N : Type 0} where
  -- `df[df["datetime"] <= timestamp]`
  abbrev pub history_of : ℕ → List (Bar N) → List (Bar N)
  history_of timestamp df = keep (λ b. leb b.datetime timestamp) df

  abbrev pub get_mtf_history : ℕ → Dict (List (Bar N)) → Dict (List (Bar N))
  get_mtf_history timestamp [] = []
  get_mtf_history timestamp ((tf, df) ∷ d) =
      let history = history_of timestamp df in
      if ltb 0 (length history)
      then (tf, history) ∷ get_mtf_history timestamp d
      else get_mtf_history timestamp d

  -- `_get_primary_timeframe_data`, of a symbol: the primary timeframe, or else the first.
  abbrev pub primary_frame : Option String → Dict (List (Bar N)) → Option (List (Bar N))
  primary_frame primary tf_data = elim (get_of primary tf_data) [
    | some df ↦ some df
    | none ↦ elim tf_data [ [] ↦ none | e ∷ d ↦ some e.1 ]
  ]

  abbrev pub get_primary_timeframe_data :
      Option String → Dict (Dict (List (Bar N))) → Dict (List (Bar N))
  get_primary_timeframe_data primary [] = []
  get_primary_timeframe_data primary ((symbol, tf_data) ∷ d) =
      elim (primary_frame primary tf_data) [
        | none ↦ get_primary_timeframe_data primary d
        | some df ↦ (symbol, df) ∷ get_primary_timeframe_data primary d
      ]

  -- "Update position price if exists"
  abbrev pub set_price : N → BacktestPosition N → BacktestPosition N
  set_price price p = record p { current_price = price }

module _ {N : Type 0} {D : Type 0} ⦃num : Number N⦄ ⦃dec : Number D⦄ ⦃conv : Conversion N D⦄ where
  -- Of a symbol that has a position.
  abbrev pub mark : String → N → BacktestEngine N D → BacktestEngine N D
  mark symbol price e = elim (lookup symbol e.positions) [
    | none ↦ e
    | some p ↦ record e { positions = insert symbol (set_price price p) e.positions }
  ]

  -- The signal and what it leads to. A generator that raises is only logged.
  unfoldable pub act :
      Generator N → String → Ohlcv N → N → ℕ → BacktestEngine N D → Result (BacktestEngine N D)
  act generate symbol ohlcv price now e = elim (generate symbol ohlcv price) [
    | raised x ↦ ok e
    | ok signal ↦ process_signal symbol signal price now e
  ]

  unfoldable pub process_bar :
      Generator N → String → Bar N → Ohlcv N → ℕ → BacktestEngine N D → Result (BacktestEngine N D)
  process_bar generate symbol bar ohlcv now e =
      if is_some (lookup symbol e.positions)
      then (let e₁ = check_stops symbol bar.high bar.low now (mark symbol bar.close e) in
          if is_some (lookup symbol e₁.positions)
          then act generate symbol ohlcv bar.close now e₁
          else ok e₁)
      else act generate symbol ohlcv bar.close now e

  abbrev pub process_candle :
      Generator N
      → String
      → Bar N
      → List (Bar N)
      → ℕ
      → BacktestEngine N D
      → Result (BacktestEngine N D)
  process_candle generate symbol bar history now e =
      process_bar generate symbol bar (Ohlcv.frame history) now e

  abbrev pub process_candle_mtf :
      Generator N
      → String
      → Bar N
      → Dict (List (Bar N))
      → ℕ
      → BacktestEngine N D
      → Result (BacktestEngine N D)
  process_candle_mtf generate symbol bar mtf_history now e =
      process_bar generate symbol bar (Ohlcv.frames mtf_history) now e

  -- The loops over the symbols, for one timestamp.
  unfoldable pub process_frames :
      Generator N → ℕ → ℕ → Dict (List (Bar N)) → BacktestEngine N D → Result (BacktestEngine N D)
  process_frames generate timestamp now [] e = ok e
  process_frames generate timestamp now ((symbol, df) ∷ d) e =
      let history = history_of timestamp df in
      (if ltb (length history) e.min_candles
        then ok e
        else or_raise (back history) Exception.index_error >>= λ bar.
            process_candle generate symbol bar history now e)
      >>= λ e'. process_frames generate timestamp now d e'

  unfoldable pub process_mtf_frames :
      Generator N
      → ℕ
      → ℕ
      → Dict (Dict (List (Bar N)))
      → BacktestEngine N D
      → Result (BacktestEngine N D)
  process_mtf_frames generate timestamp now [] e = ok e
  process_mtf_frames generate timestamp now ((symbol, tf_data) ∷ d) e =
      let mtf_history = get_mtf_history timestamp tf_data in
      elim (get_of e.primary_timeframe mtf_history) [
        | none ↦ ok e
        | some primary ↦
            if ltb (length primary) e.min_candles
            then ok e
            else or_raise (back primary) Exception.index_error >>= λ bar.
                process_candle_mtf generate symbol bar mtf_history now e
      ]
      >>= λ e'. process_mtf_frames generate timestamp now d e'
