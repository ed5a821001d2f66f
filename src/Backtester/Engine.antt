-- ===== src/Backtester/Engine.antt =====
-- keryxflow/backtester/engine.py: `BacktestEngine`, opening and closing positions. `now` is the time
-- of the wall clock that the risk manager reads. What an exception leaves behind is not kept.
mod State
pub mod Candles
pub mod Run
pub mod Figures
pub mod Steps
pub mod Liquidation
pub mod Ledger
pub mod Stops
mod Tests
use keryx_talos.Aegis.Profiles.{RiskProfile}
pub use State.*
use keryx_talos.Base.{
  not, List, ◌||◌, ◌&&◌, none, str_eq, [], is_some, if◌then◌else◌, some, ◌++◌, Option, Bool, length,
  map, ℕ, String, ◌∷◌,
}
use keryx_talos.Base.Dict.{Dict, lookup, insert, erase}
use keryx_talos.Base.Result.{Result, ok, ◌>>=◌}
use keryx_talos.Number.{Number, Conversion, nought, of_ℕ, is_nonzero, sum_from}
use keryx_talos.Aegis.Risk.{
  get_risk_manager, RiskManager, OrderRequest, ApprovalResult, calculate_safe_position_size,
  approve_order, set_open_positions, update_daily_pnl,
}

module _ {N : Type 0} ⦃num : Number N⦄ where
  open num use {add, sub, mul, quot, lt, le}

  -- Python's truth test on `float | None`.
  abbrev pub nonzero : Option N → Option N
  nonzero none = none
  nonzero (some x) = if is_nonzero x then some x else none

  -- `a or b`
  abbrev pub or_else : Option N → N → N
  or_else a b = elim (nonzero a) [ none ↦ b | some x ↦ x ]

  abbrev pub unrealized_pnl : BacktestPosition N → N
  unrealized_pnl p =
      if str_eq p.side "buy"
      then mul (sub p.current_price p.entry_price) p.quantity
      else mul (sub p.entry_price p.current_price) p.quantity

  abbrev pub unrealized_pnl_percentage : BacktestPosition N → N
  unrealized_pnl_percentage p =
      if num.eqb p.entry_price nought
      then nought
      else if str_eq p.side "buy"
      then mul (quot (sub p.current_price p.entry_price) p.entry_price) (of_ℕ 100)
      else mul (quot (sub p.entry_price p.current_price) p.entry_price) (of_ℕ 100)

  abbrev pub is_closed : BacktestTrade N → Bool
  is_closed t = is_some t.exit_price

  abbrev pub is_winner : BacktestTrade N → Bool
  is_winner t = lt nought t.pnl

  -- The prices at which an order of a side fills.
  abbrev pub entry_fill : N → String → N → N
  entry_fill slippage side price =
      if str_eq side "buy"
      then mul price (add (of_ℕ 1) slippage)
      else mul price (sub (of_ℕ 1) slippage)

  abbrev pub exit_fill : N → String → N → N
  exit_fill slippage side price =
      if str_eq side "buy"
      then mul price (sub (of_ℕ 1) slippage)
      else mul price (add (of_ℕ 1) slippage)

  -- The cost of an order with its commission.
  abbrev pub cost_of : N → N → N → N
  cost_of commission quantity fill_price =
      let cost = mul quantity fill_price in add cost (mul cost commission)

  -- The profit of a position that is closed at a price, less the commission.
  abbrev pub pnl_of : N → BacktestPosition N → N → N
  pnl_of commission p fill_price =
      let gross =
        if str_eq p.side "buy"
        then mul (sub fill_price p.entry_price) p.quantity
        else mul (sub p.entry_price fill_price) p.quantity in
      sub gross (mul (mul p.quantity fill_price) commission)

  abbrev pub percentage_of : N → N → N
  percentage_of pnl entry_value =
      if lt nought entry_value then mul (quot pnl entry_value) (of_ℕ 100) else nought

  -- The record of a closed position.
  abbrev pub trade_of : N → String → BacktestPosition N → N → String → Option ℕ → BacktestTrade N
  trade_of commission symbol p fill_price reason time =
      let pnl = pnl_of commission p fill_price in
      record {
        symbol = symbol;
        side = p.side;
        quantity = p.quantity;
        entry_price = p.entry_price;
        entry_time = p.entry_time;
        exit_price = some fill_price;
        exit_time = time;
        stop_loss = p.stop_loss;
        take_profit = p.take_profit;
        pnl = pnl;
        pnl_percentage = percentage_of pnl (mul p.entry_price p.quantity);
        exit_reason = some reason;
      }

  abbrev pub hits_stop : BacktestPosition N → N → N → Option N
  hits_stop p high low = elim (nonzero p.stop_loss) [
    | none ↦ none
    | some s ↦
        if (str_eq p.side "buy" && le low s) || (str_eq p.side "sell" && le s high)
        then some s
        else none
  ]

  abbrev pub hits_target : BacktestPosition N → N → N → Option N
  hits_target p high low = elim (nonzero p.take_profit) [
    | none ↦ none
    | some t ↦
        if (str_eq p.side "buy" && le t high) || (str_eq p.side "sell" && le low t)
        then some t
        else none
  ]

  abbrev pub new_position : Option ℕ → OrderRequest N → N → BacktestPosition N
  new_position time order fill_price = record {
    symbol = order.symbol;
    side = order.side;
    quantity = order.quantity;
    entry_price = fill_price;
    entry_time = time;
    stop_loss = order.stop_loss;
    take_profit = order.take_profit;
    current_price = fill_price;
  }

  -- Where a position is closed in a candle, and why.
  abbrev pub exit_of : BacktestPosition N → N → N → Option (N × String)
  exit_of p high low = elim (hits_stop p high low) [
    | some s ↦ some (s, "stop_loss")
    | none ↦ elim (hits_target p high low) [ none ↦ none | some t ↦ some (t, "take_profit") ]
  ]

  abbrev pub order_of : String → String → N → TradingSignal N → N → OrderRequest N
  order_of symbol side quantity signal current_price = record {
    symbol = symbol;
    side = side;
    quantity = quantity;
    entry_price = or_else signal.entry_price current_price;
    stop_loss = signal.stop_loss;
    take_profit = signal.take_profit;
  }

module _ {N : Type 0} {D : Type 0} ⦃num : Number N⦄ ⦃dec : Number D⦄ ⦃conv : Conversion N D⦄ where
  open num use {add, sub, mul, le}

  unfoldable pub execute_order : OrderRequest N → BacktestEngine N D → BacktestEngine N D
  execute_order order e =
      let fill_price = entry_fill e.slippage order.side order.entry_price in
      let positions =
        insert order.symbol (new_position e.current_time order fill_price) e.positions in
      record e {
        balance = sub e.balance (cost_of e.commission order.quantity fill_price);
        positions = positions;
        risk_manager = set_open_positions (length positions) e.risk_manager;
      }

  -- `_close_position` of a symbol that has a position.
  unfoldable pub settle :
      String → BacktestPosition N → N → String → ℕ → BacktestEngine N D → BacktestEngine N D
  settle symbol p exit_price reason now e =
      let fill_price = exit_fill e.slippage p.side exit_price in
      let positions = erase symbol e.positions in
      record e {
        balance = add e.balance (mul p.quantity fill_price);
        trades = e.trades ++ (trade_of e.commission symbol p fill_price reason e.current_time ∷ []);
        positions = positions;
        risk_manager =
            update_daily_pnl (pnl_of e.commission p fill_price) now
              (set_open_positions (length positions) e.risk_manager);
      }

  unfoldable pub close_position : String → N → String → ℕ → BacktestEngine N D → BacktestEngine N D
  close_position symbol exit_price reason now e = elim (lookup symbol e.positions) [
    | none ↦ e
    | some p ↦ settle symbol p exit_price reason now e
  ]

  unfoldable pub check_stops : String → N → N → ℕ → BacktestEngine N D → BacktestEngine N D
  check_stops symbol high low now e = elim (lookup symbol e.positions) [
    | none ↦ e
    | some p ↦ elim (exit_of p high low) [ none ↦ e | some r ↦ close_position symbol r.0 r.1 now e ]
  ]

  abbrev pub calculate_equity : BacktestEngine N D → N
  calculate_equity e = add e.balance (sum_from nought (map (λ q. unrealized_pnl q.1) e.positions))

  -- "Get approval from risk manager"
  unfoldable pub approve_and_execute :
      OrderRequest N → ℕ → BacktestEngine N D → Result (BacktestEngine N D)
  approve_and_execute order now e =
      let r = approve_order order (some e.balance) now e.risk_manager in
      r.1 >>= λ approval.
      let e₁ = record e { risk_manager = r.0 } in
      ok (if approval.approved then execute_order order e₁ else e₁)

  -- `_process_signal` from "Skip if already in position".
  unfoldable pub enter :
      String → String → TradingSignal N → N → ℕ → BacktestEngine N D → Result (BacktestEngine N D)
  enter symbol side signal current_price now e =
      if is_some (lookup symbol e.positions) then ok e else elim (nonzero signal.stop_loss) [
        | none ↦ ok e
        | some stop ↦
            calculate_safe_position_size (or_else signal.entry_price current_price) stop
              (some e.balance) e.risk_manager
            >>= λ quantity.
                if le quantity nought
                then ok e
                else approve_and_execute (order_of symbol side quantity signal current_price) now e
      ]

  unfoldable pub process_signal :
      String → TradingSignal N → N → ℕ → BacktestEngine N D → Result (BacktestEngine N D)
  process_signal symbol signal current_price now e = elim signal.signal_type [
    | SignalType.long ↦ enter symbol "buy" signal current_price now e
    | SignalType.short ↦ enter symbol "sell" signal current_price now e
    | SignalType.close_long ↦ ok (close_position symbol current_price "signal" now e)
    | SignalType.close_short ↦ ok (close_position symbol current_price "signal" now e)
    | SignalType.no_action ↦ ok e
  ]

  -- The arguments, the defaults of the others filled in, and the primary timeframe of the settings.
  abbrev pub new :
      Option (RiskManager N D)
      → List String
      → String
      → RiskProfile
      → N
      → N
      → N
      → ℕ
      → Bool
      → Option String
      → BacktestEngine N D
  new manager symbols primary risk_profile balance slippage commission min_candles mtf
        primary_timeframe =
      record {
        initial_balance = balance;
        slippage = slippage;
        commission = commission;
        min_candles = min_candles;
        mtf_enabled = mtf;
        primary_timeframe =
            if mtf && not (is_some primary_timeframe) then some primary else primary_timeframe;
        risk_manager = get_risk_manager manager symbols risk_profile balance;
        balance = balance;
        positions = [];
        trades = [];
        equity_curve = [];
        current_time = none;
      }
