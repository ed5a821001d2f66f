-- ===== src/Backtester/Engine/Figures.antt =====
-- keryxflow/backtester/engine.py: `_calculate_result`, less the figures that numpy computes of the
-- equity curve.
use keryx_talos.Base.{
  not, ◌-◌, keep, ltb, if◌then◌else◌, length, Option, map, ◌∷◌, [], none, some, ℕ, List,
}
use keryx_talos.Base.Result.{Result, Exception, ok, ◌>>=◌, or_raise}
use keryx_talos.Number.{Number, Conversion, nought, of_ℕ, sum_from, divide}
use keryx_talos.Aegis.Quant.{calculate_expectancy}
use keryx_talos.Backtester.Engine.{BacktestEngine, BacktestTrade, is_winner, calculate_equity}

-- `profit_factor` is `none` for infinity.
pub record Figures (N : Type 0) : Type 0 where
  pub initial_balance : N
  pub final_balance : N
  pub total_return : N
  pub total_trades : ℕ
  pub winning_trades : ℕ
  pub losing_trades : ℕ
  pub win_rate : N
  pub avg_win : N
  pub avg_loss : N
  pub expectancy : N
  pub profit_factor : Option N

module _ {N : Type 0} ⦃num : Number N⦄ where
  open num use {sub, quot, abs, lt}

  abbrev pub wins : List (BacktestTrade N) → List N
  wins trades = map (λ t. t.pnl) (keep (λ t. is_winner t) trades)

  abbrev pub losses : List (BacktestTrade N) → List N
  losses trades = map (λ t. abs t.pnl) (keep (λ t. not (is_winner t)) trades)

  -- `sum(xs) / len(xs) if xs else 0`
  abbrev pub mean : List N → N
  mean [] = nought
  mean (x ∷ xs) = quot (sum_from nought (x ∷ xs)) (of_ℕ (length (x ∷ xs)))

  abbrev pub rate_of : ℕ → ℕ → N
  rate_of part total = if ltb 0 total then quot (of_ℕ part) (of_ℕ total) else nought

  abbrev pub factor_of : N → N → Option N
  factor_of gross_profit gross_loss =
      if lt nought gross_loss then some (quot gross_profit gross_loss) else none

module _ {N : Type 0} {D : Type 0} ⦃num : Number N⦄ ⦃dec : Number D⦄ ⦃conv : Conversion N D⦄ where
  pub calculate_result : BacktestEngine N D → Result (Figures N)
  calculate_result e =
      let final_balance = calculate_equity e in
      let total_trades = length e.trades in
      let winning_trades = length (keep (λ t. is_winner t) e.trades) in
      let won = wins e.trades in
      let lost = losses e.trades in
      let win_rate = rate_of winning_trades total_trades in
      or_raise (divide (num.sub final_balance e.initial_balance) e.initial_balance)
        Exception.zero_division_error
      >>= λ total_return. ok record {
        initial_balance = e.initial_balance;
        final_balance = final_balance;
        total_return = total_return;
        total_trades = total_trades;
        winning_trades = winning_trades;
        losing_trades = total_trades - winning_trades;
        win_rate = win_rate;
        avg_win = mean won;
        avg_loss = mean lost;
        expectancy = calculate_expectancy win_rate (mean won) (mean lost);
        profit_factor = factor_of (sum_from nought won) (sum_from nought lost);
      }
