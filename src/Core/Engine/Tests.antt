-- ===== src/Core/Engine/Tests.antt =====
-- An engine that buys on its first price, and the theorems about engines at it.
use keryx_talos.Base.{length, ◌≡◌, ◌∷◌, [], some, true, false, ℕ, List, refl, buy}
use keryx_talos.Base.Int.{ℤ, pos}
use keryx_talos.Base.Result.{ok}
use keryx_talos.Number.{fixed, fixed_conversion}
use keryx_talos.Aegis.Guardrails.{
  validate_order, check_exposure, check_risk, check_losses, check_loss, check_rates, check_drawdown,
}
use keryx_talos.Aegis.Quant.{position_size, risk_reward_ratio}
use keryx_talos.Aegis.Risk.{
  check_balance, check_reward, check_stop, check_profile, approve_order, check_daily_reset,
  calculate_safe_position_size, set_open_positions, update_balance,
}
use keryx_talos.Core.Engine.Buffer.{add_price_to}
use keryx_talos.Aegis.Risk.Samples.{usd, m}
use keryx_talos.Exchange.Paper.{
  PaperTradingEngine, initialize, execute_market_order, execute, get_base_quote, fill, exchange,
  deduct, put,
}
use keryx_talos.Oracle.Signals.{SignalType}
use keryx_talos.Core.Engine.{
  TradingEngine, Generator, new, on_panic, on_price_update, take_price, buffer_price,
  analyze_symbol, process_signal, size_and_execute, approve_and_execute, execute_order,
  on_position_opened,
}
use keryx_talos.Core.Engine.Events.{Event, run}
use keryx_talos.Core.Engine.Halt.{IsFrozen, run-on_panic-IsFrozen}
use keryx_talos.Core.Engine.Openless.{IsOpenless}
use keryx_talos.Core.Engine.Positions.{run-IsOpenless}

abbrev paper : PaperTradingEngine ℤ
paper = record {
  base_currency = "USDT";
  initial_balance = usd 10000;
  slippage_pct = pos 0;
  prices = [];
  initialized = false;
  database = record { balances = []; trades = []; positions = [] };
}

abbrev engine : TradingEngine ℤ ℤ
engine =
    let e : TradingEngine ℤ ℤ = new paper m true (fixed.lit 2 2) (fixed.lit 1 2) in
    record e { min_candles = 1 }

-- Always to buy, with a stop at 80 and a target at 140.
abbrev buys : Generator ℤ
buys symbol ohlcv price = ok record {
  signal_type = SignalType.long;
  entry_price = some price;
  stop_loss = some (usd 80);
  take_profit = some (usd 140);
}

-- Two prices a minute apart, of which the second is analyzed, and a pause.
abbrev events : List (ℕ × Event ℤ)
events =
    (0, Event.price_update "BTC/USDT" (some (usd 100)) (usd 1))
    ∷ (60000000, Event.price_update "BTC/USDT" (some (usd 100)) (usd 1))
    ∷ (60000001, Event.position_opened "BTC/USDT" buy (some (usd 100)))
    ∷ (60000002, Event.system_paused)
    ∷ []

run-on_panic-IsFrozen_example : IsFrozen (on_panic engine) (run buys events (on_panic engine))
run-on_panic-IsFrozen_example = run-on_panic-IsFrozen buys events engine (tt, (tt, (tt, (tt, tt))))

run-IsOpenless_example : IsOpenless (run buys events engine)
run-IsOpenless_example =
    run-IsOpenless buys events engine record { positions_eq = refl; count_eq = refl }

abbrev left : TradingEngine ℤ ℤ → ℕ × ℕ
left e = (length e.paper.database.trades, length e.paper.database.positions)

abbrev untracked : TradingEngine ℤ ℤ
untracked = record engine { trailing_enabled = false }

-- The second price buys, and no position is open.
bought : left (run buys events untracked) ≡ (1, 0)
unfolding run on_price_update take_price buffer_price add_price_to analyze_symbol process_signal
    size_and_execute approve_and_execute execute_order on_position_opened approve_order
    check_profile check_daily_reset validate_order check_exposure check_risk check_losses check_loss
    check_rates check_drawdown position_size risk_reward_ratio calculate_safe_position_size
    set_open_positions update_balance check_stop check_reward check_balance initialize
    execute_market_order execute get_base_quote fill exchange deduct put
bought = refl
