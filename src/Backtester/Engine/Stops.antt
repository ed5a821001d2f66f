-- ===== src/Backtester/Engine/Stops.antt =====
-- keryxflow/backtester/engine.py: what every trade of a run has.
use keryx_talos.Base.{subst, ◌≡◌, some, false, ℕ, Option, All, All-append}
use keryx_talos.Base.Dict.{lookup, Values, insert-Values, erase-Values, lookup-Values, OnSome}
use keryx_talos.Base.Result.{OnOk}
use keryx_talos.Number.{Number, Conversion, nought}
use keryx_talos.Backtester.Engine.{
  BacktestEngine, BacktestPosition, BacktestTrade, Generator, MarketData, nonzero, execute_order,
  settle,
}
use keryx_talos.Backtester.Engine.Candles.{set_price}
use keryx_talos.Backtester.Engine.Run.{run}
use keryx_talos.Backtester.Engine.Steps.{IsKept, run-keeps}

module _ {N : Type 0} ⦃num : Number N⦄ where
  open num use {le}

  -- A quantity that is more than nothing, and a stop that is not 0.
  abbrev pub IsProtected : N → Option N → Type 0
  IsProtected quantity stop_loss =
      (le quantity nought ≡ false) × (stop : N) × (nonzero stop_loss ≡ some stop)

  abbrev ProtectedPosition : BacktestPosition N → Type 0
  ProtectedPosition p = IsProtected p.quantity p.stop_loss

  abbrev pub ProtectedTrade : BacktestTrade N → Type 0
  ProtectedTrade t = IsProtected t.quantity t.stop_loss

  found-Protected :
      (o : Option (BacktestPosition N)) (p : BacktestPosition N)
      → o ≡ some p
      → OnSome ProtectedPosition o
      → ProtectedPosition p
  found-Protected o p e h = subst (λ x. OnSome ProtectedPosition x) e h

module _ {N : Type 0} {D : Type 0} ⦃num : Number N⦄ ⦃dec : Number D⦄ ⦃conv : Conversion N D⦄ where
  abbrev pub AllProtected : BacktestEngine N D → Type 0
  AllProtected e = Values ProtectedPosition e.positions × All ProtectedTrade e.trades

  AllProtected-IsKept : IsKept AllProtected
  unfolding execute_order settle
  AllProtected-IsKept = record {
    opened = λ order e missing placeable w.
        (insert-Values ProtectedPosition order.symbol _ e.positions placeable w.0, w.1);
    settled = λ symbol p price reason now e h w.
        let q =
          found-Protected (lookup symbol e.positions) p h
            (lookup-Values ProtectedPosition symbol e.positions w.0) in
        (
          erase-Values ProtectedPosition symbol e.positions w.0,
          All-append ProtectedTrade e.trades _ w.1 (q, tt),
        );
    marked = λ symbol p price e h w.
        let q =
          found-Protected (lookup symbol e.positions) p h
            (lookup-Values ProtectedPosition symbol e.positions w.0) in
        (insert-Values ProtectedPosition symbol (set_price price p) e.positions q w.0, w.1);
    noted = λ risk_manager equity_curve time e w. w;
  }

  -- Every trade of a run, and every position that it leaves open, is for more than nothing and has a
  -- stop loss that is not 0, whatever the signals were.
  pub run-AllProtected :
      (generate : Generator N) (clock : ℕ → ℕ) (ending : ℕ) (market : MarketData N)
      (start end_time : Option ℕ) (e : BacktestEngine N D)
      → OnOk AllProtected (run generate clock ending market start end_time e)
  run-AllProtected generate clock ending market start end_time e =
      run-keeps AllProtected-IsKept generate clock ending market start end_time e (tt, tt)
