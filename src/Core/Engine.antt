-- ===== src/Core/Engine.antt =====
-- keryxflow/core/engine.py: `TradingEngine` in paper mode with candles of one timeframe and without
-- agents. The methods that handle an event are called by the event bus, which logs an exception that
-- leaves one. How the signal generator answers is an argument; the messages that are published, the
-- notifications and the memory, whose calls are taken to return, are left out.
pub mod Buffer
pub mod Events
pub mod Halt
pub mod Openless
pub mod Positions
mod Tests
use keryx_talos.Base.{
  ◌-◌, microseconds_per_second, ◌*◌, ◌&&◌, str_eq, leb, ◌||◌, not, is_some, ltb, length,
  if◌then◌else◌, [], none, some, true, false, ℕ, String, List, Bool, Option, Side,
}
use keryx_talos.Base.Dict.{Dict, lookup, insert}
use keryx_talos.Base.Result.{Result, ok, raised}
use keryx_talos.Number.{Number, Conversion, nought, is_nonzero}
use keryx_talos.Aegis.Trailing.{
  TrailingStopManager, start_tracking, stop_tracking, update_price, should_trigger_stop,
}
use keryx_talos.Aegis.Risk.{
  RiskManager, OrderRequest, ApprovalResult, calculate_safe_position_size, approve_order,
  set_open_positions, update_balance,
}
use keryx_talos.Exchange.Paper.{
  PaperTradingEngine, Database, initialize, balance_of, execute_market_order, close_position,
}
use keryx_talos.Exchange.Paper.Book.{close_all_positions}
use keryx_talos.Oracle.Signals.{SignalType, TradingSignal}
use keryx_talos.Core.MtfBuffer.{Candle}
use keryx_talos.Core.Engine.Buffer.{OhlcvBuffer, new_buffer, add_price_to, count_candles, get_ohlcv}

pub record TradingEngine (N D : Type 0) : Type 0 where
  pub paper : PaperTradingEngine N
  pub risk : RiskManager N D
  pub trailing : TrailingStopManager N
  pub trailing_enabled : Bool
  pub trailing_stop_pct : N
  pub trailing_activation_pct : N
  pub buffer : OhlcvBuffer N
  pub last_analysis : Dict ℕ
  pub analysis_interval : ℕ
  pub min_candles : ℕ
  pub auto_trade : Bool
  pub paused : Bool

abbrev pub Generator : Type 0 → Type 0
Generator N = String → List (Candle N) → N → Result (TradingSignal N)

module _ {N : Type 0} ⦃num : Number N⦄ where
  -- Python's truth test on `float | None`.
  abbrev pub truthy : Option N → Option N
  truthy none = none
  truthy (some x) = if is_nonzero x then some x else none

  abbrev pub free_usdt : PaperTradingEngine N → N
  free_usdt p = (balance_of "USDT" p.database.balances).free

  abbrev pub total_usdt : PaperTradingEngine N → N
  total_usdt p = (balance_of "USDT" p.database.balances).total

  abbrev pub order_of : String → String → N → N → TradingSignal N → OrderRequest N
  order_of symbol side quantity entry signal = record {
    symbol = symbol;
    side = side;
    quantity = quantity;
    entry_price = entry;
    stop_loss = signal.stop_loss;
    take_profit = signal.take_profit;
  }

-- The side of an entry signal.
abbrev pub entry_side : SignalType → Option String
entry_side SignalType.long = some "buy"
entry_side SignalType.short = some "sell"
entry_side _ = none

abbrev pub is_actionable : SignalType → Bool
is_actionable SignalType.no_action = false
is_actionable _ = true

module _ {N : Type 0} {D : Type 0} ⦃num : Number N⦄ ⦃dec : Number D⦄ ⦃conv : Conversion N D⦄ where
  open num use {le}

  -- A new engine in paper mode.
  abbrev pub new : PaperTradingEngine N → RiskManager N D → Bool → N → N → TradingEngine N D
  new paper risk trailing_enabled trail_pct activation_pct = record {
    paper = paper;
    risk = risk;
    trailing = [];
    trailing_enabled = trailing_enabled;
    trailing_stop_pct = trail_pct;
    trailing_activation_pct = activation_pct;
    buffer = new_buffer 100;
    last_analysis = [];
    analysis_interval = 10;
    min_candles = 20;
    auto_trade = true;
    paused = false;
  }

  -- "Update risk manager state"
  abbrev pub sync_risk : TradingEngine N D → TradingEngine N D
  sync_risk e =
      let paper = initialize e.paper in
      record e {
        paper = paper;
        risk =
            update_balance (total_usdt paper)
              (set_open_positions (length paper.database.positions) e.risk);
      }

  unfoldable pub execute_order : OrderRequest N → TradingEngine N D → TradingEngine N D
  execute_order order e =
      let r =
        execute_market_order order.symbol order.side order.quantity (some order.entry_price)
          e.paper in
      let e₁ = record e { paper = r.0 } in elim r.1 [ raised x ↦ e₁ | ok result ↦ sync_risk e₁ ]

  -- "Get approval from Aegis"
  unfoldable pub approve_and_execute : OrderRequest N → ℕ → TradingEngine N D → TradingEngine N D
  approve_and_execute order now e =
      let r = approve_order order (some (free_usdt e.paper)) now e.risk in
      let e₁ = record e { risk = r.0 } in
      elim r.1 [
        | raised x ↦ e₁
        | ok approval ↦ if approval.approved then execute_order order e₁ else e₁
      ]

  -- `_process_signal` once the entry price and the side are known.
  unfoldable pub size_and_execute :
      String → String → N → TradingSignal N → ℕ → TradingEngine N D → TradingEngine N D
  size_and_execute symbol side entry signal now e =
      let e₁ = record e { paper = initialize e.paper } in
      elim (truthy signal.stop_loss) [
        | none ↦ e₁
        | some stop ↦
            elim (calculate_safe_position_size entry stop (some (free_usdt e₁.paper)) e₁.risk) [
              | raised x ↦ e₁
              | ok quantity ↦
                  if le quantity nought
                  then e₁
                  else approve_and_execute (order_of symbol side quantity entry signal) now e₁
            ]
      ]

  unfoldable pub process_signal :
      String → TradingSignal N → ℕ → TradingEngine N D → TradingEngine N D
  process_signal symbol signal now e = elim (truthy signal.entry_price) [
    | none ↦ e
    | some entry ↦ elim (entry_side signal.signal_type) [
      | none ↦ e
      | some side ↦ size_and_execute symbol side entry signal now e
    ]
  ]

  abbrev pub should_analyze : ℕ → String → Bool → TradingEngine N D → Bool
  should_analyze now symbol new_candle e =
      if ltb (count_candles symbol e.buffer) e.min_candles
      then false
      else elim (lookup symbol e.last_analysis) [
        | none ↦ true
        | some last ↦ leb (e.analysis_interval * microseconds_per_second) (now - last) || new_candle
      ]

  -- `_analyze_symbol`; an exception of the generator is logged.
  unfoldable pub analyze_symbol :
      Generator N → String → N → ℕ → TradingEngine N D → TradingEngine N D
  analyze_symbol generate symbol current_price now e =
      let e₁ = record e { last_analysis = insert symbol now e.last_analysis } in
      let ohlcv = get_ohlcv symbol e₁.buffer in
      if ltb (length ohlcv) e₁.min_candles then e₁ else elim (generate symbol ohlcv current_price) [
        | raised x ↦ e₁
        | ok signal ↦
            if is_actionable signal.signal_type && e₁.auto_trade
            then process_signal symbol signal now e₁
            else e₁
      ]

  unfoldable pub close_trailing_stop : String → N → TradingEngine N D → TradingEngine N D
  close_trailing_stop symbol price e =
      let r = close_position symbol (some price) e.paper in
      let e₁ = record e { trailing = stop_tracking symbol e.trailing; paper = r.0 } in
      elim r.1 [ raised x ↦ e₁ | ok closed ↦ if is_some closed then sync_risk e₁ else e₁ ]

  -- "Add to appropriate buffer" and "Check if we should analyze"
  unfoldable pub buffer_price :
      Generator N → String → N → N → ℕ → TradingEngine N D → TradingEngine N D
  buffer_price generate symbol price volume now e =
      let r = add_price_to now symbol price volume e.buffer in
      let e₁ = record e { buffer = r.0 } in
      if should_analyze now symbol r.1 e₁ then analyze_symbol generate symbol price now e₁ else e₁

  -- The price of an event that has a symbol and a price.
  unfoldable pub take_price :
      Generator N → String → N → N → ℕ → TradingEngine N D → TradingEngine N D
  take_price generate symbol price volume now e =
      if e.trailing_enabled
      then elim (update_price symbol price e.trailing) [
        | raised x ↦ e
        | ok trailing ↦
            let e₁ = record e { trailing = trailing } in
            if should_trigger_stop symbol price trailing
            then close_trailing_stop symbol price e₁
            else buffer_price generate symbol price volume now e₁
      ]
      else buffer_price generate symbol price volume now e

  unfoldable pub on_price_update :
      Generator N → String → Option N → N → ℕ → TradingEngine N D → TradingEngine N D
  on_price_update generate symbol price volume now e =
      if e.paused || str_eq symbol ""
      then e
      else elim (truthy price) [ none ↦ e | some p ↦ take_price generate symbol p volume now e ]

  unfoldable pub on_position_opened :
      String → Side → Option N → TradingEngine N D → TradingEngine N D
  on_position_opened symbol side entry_price e =
      if not e.trailing_enabled || str_eq symbol "" then e else elim (truthy entry_price) [
        | none ↦ e
        | some entry ↦ record e {
          trailing =
              start_tracking symbol side entry e.trailing_stop_pct e.trailing_activation_pct
                e.trailing;
        }
      ]

  unfoldable pub on_position_closed : String → TradingEngine N D → TradingEngine N D
  on_position_closed symbol e =
      if not e.trailing_enabled || str_eq symbol ""
      then e
      else record e { trailing = stop_tracking symbol e.trailing }

  abbrev pub on_pause : TradingEngine N D → TradingEngine N D
  on_pause e = record e { paused = true }

  abbrev pub on_resume : TradingEngine N D → TradingEngine N D
  on_resume e = record e { paused = false }

  unfoldable pub on_panic : TradingEngine N D → TradingEngine N D
  on_panic e =
      let r = close_all_positions e.paper in
      let e₁ = record e {
        paused = true;
        trailing = if e.trailing_enabled then [] else e.trailing;
        paper = r.0;
      } in
      elim r.1 [
        | raised x ↦ e₁
        | ok closed ↦ record e₁ {
          risk = update_balance (total_usdt e₁.paper) (set_open_positions 0 e₁.risk);
        }
      ]
