-- ===== src/Backtester/Engine/Tests.antt =====
-- A run on three candles, and the theorems about runs at it.
use keryx_talos.Aegis.Guardrails.{validate_order}
use keryx_talos.Aegis.Risk.{check_balance, check_reward, check_stop, check_profile, approve_order}
use keryx_talos.Base.{◌≡◌, ◌∷◌, [], none, some, false, ℕ, List, length, refl}
use keryx_talos.Base.Int.{ℤ, pos}
use keryx_talos.Base.Result.{Result, ok, raised, OnOk}
use keryx_talos.Number.{fixed, fixed_conversion, fixed-IsExact}
use keryx_talos.Aegis.Risk.{
  approve_order, check_profile, check_daily_reset, calculate_safe_position_size, set_open_positions,
  update_daily_pnl, update_balance,
}
use keryx_talos.Aegis.Guardrails.{
  validate_order, check_exposure, check_risk, check_losses, check_loss, check_rates, check_drawdown,
}
use keryx_talos.Aegis.Quant.{position_size, risk_reward_ratio}
use keryx_talos.Aegis.Risk.Samples.{usd, m}
use keryx_talos.Backtester.Engine.{
  BacktestEngine, Bar, Generator, MarketData, SignalType, execute_order, settle, close_position,
  check_stops, approve_and_execute, enter, process_signal,
}
use keryx_talos.Backtester.Engine.Candles.{act, process_bar, process_frames}
use keryx_talos.Backtester.Engine.Run.{
  run, process_timestamp, process_all, close_remaining, finish_timestamp, check_liquidation,
}
use keryx_talos.Backtester.Engine.Ledger.{IsBooked, run-IsBooked}
use keryx_talos.Backtester.Engine.Stops.{AllProtected, run-AllProtected}
use keryx_talos.Backtester.Engine.Liquidation.{IsCovered, process_timestamp-IsCovered, run-flat}

abbrev engine : BacktestEngine ℤ ℤ
engine = record {
  initial_balance = usd 10000;
  slippage = pos 0;
  commission = fixed.lit 1 3;
  min_candles = 1;
  mtf_enabled = false;
  primary_timeframe = none;
  risk_manager = m;
  balance = usd 10000;
  positions = [];
  trades = [];
  equity_curve = [];
  current_time = none;
}

abbrev bar_at : ℕ → ℕ → ℕ → ℕ → Bar ℤ
bar_at time low close high = record {
  datetime = time;
  open_price = usd close;
  high = usd high;
  low = usd low;
  close = usd close;
  volume = usd 1;
}

abbrev bars : List (Bar ℤ)
bars = bar_at 1 99 100 101 ∷ bar_at 2 100 110 115 ∷ bar_at 3 105 120 125 ∷ []

abbrev market : MarketData ℤ
market = MarketData.single (("BTC/USDT", bars) ∷ [])

-- Always to buy, with a stop at 80 and a target at 140.
abbrev buys : Generator ℤ
buys symbol ohlcv price = ok record {
  signal_type = SignalType.long;
  entry_price = none;
  stop_loss = some (usd 80);
  take_profit = some (usd 140);
}

abbrev clock : ℕ → ℕ
clock t = 0

run-flat_example :
    OnOk
      (λ e. e.positions ≡ [])
      (run buys clock 0 (MarketData.single (("BTC/USDT", bars) ∷ [])) none none engine)
run-flat_example = run-flat buys clock 0 (("BTC/USDT", bars) ∷ []) none none engine

run-AllProtected_example : OnOk AllProtected (run buys clock 0 market none none engine)
run-AllProtected_example = run-AllProtected buys clock 0 market none none engine

run-IsBooked_example :
    OnOk (IsBooked (fixed.lit 1 3) (usd 10000)) (run buys clock 0 market none none engine)
run-IsBooked_example = run-IsBooked buys clock 0 market none none engine fixed-IsExact

process_timestamp-IsCovered_example : OnOk IsCovered (process_timestamp buys clock market 1 engine)
process_timestamp-IsCovered_example = process_timestamp-IsCovered buys clock market 1 engine

abbrev balance_after : Result (BacktestEngine ℤ ℤ) → ℤ × ℕ
balance_after (ok e) = (e.balance, length e.trades)
balance_after (raised x) = (pos 0, 0)

-- Five are bought at 100 with a commission of 0.5, and sold at 120 without one.
sold_at_the_end : balance_after (run buys clock 0 market none none engine) ≡ (fixed.lit 100995 1, 1)
unfolding run process_all process_timestamp process_frames process_bar act process_signal enter
    approve_and_execute execute_order check_stops close_position settle close_remaining
    finish_timestamp check_liquidation approve_order check_profile check_daily_reset validate_order
    check_exposure check_risk check_losses check_loss check_rates check_drawdown position_size
    risk_reward_ratio calculate_safe_position_size set_open_positions update_daily_pnl
    update_balance check_stop check_reward check_balance
sold_at_the_end = refl
