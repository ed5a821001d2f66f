-- ===== src/Lib.antt =====
-- KeryxTalos, an automatic trading bot: the part of it that decides whether an order may be placed,
-- places it on the paper account, and stops trading.
--
-- The parts and how they meet. The agent's tools (keryxflow/agent/execution_tools.py) take an order,
-- have it checked by the guardrails and approved by the risk manager (keryxflow/aegis/guardrails.py,
-- keryxflow/aegis/risk.py), send it to the order manager (keryxflow/exchange/orders.py), which
-- executes it on the paper engine (keryxflow/exchange/paper.py), and record the position in the
-- portfolio (keryxflow/aegis/portfolio.py). The risk manager sizes positions with the quant engine
-- (keryxflow/aegis/quant.py) under a profile (keryxflow/aegis/profiles.py). The circuit breaker
-- (keryxflow/aegis/circuit.py) and the trailing stops (keryxflow/aegis/trailing.py) stand beside
-- them. The trading engine (keryxflow/core/engine.py) handles prices: it
-- gathers candles, asks for a signal (keryxflow/oracle/signals.py), and executes it on the paper engine
-- when the risk manager approves. A trading session (keryxflow/agent/session.py) starts, pauses and stops the agent's loop. The
-- prices of the feeds are gathered into candles (keryxflow/core/mtf_buffer.py). The backtester
-- (keryxflow/backtester/engine.py) runs signals on past prices with the same risk manager. The event
-- bus (keryxflow/core/events.py) carries the messages between the parts, and a scheduler
-- (keryxflow/agent/scheduler.py) runs tasks of the agent at their times. The safeguards
-- (keryxflow/core/safeguards.py) are the checks before live trading. The grid and the cost-averaging
-- strategy (keryxflow/strategies) and the parameter grid of the optimizer
-- (keryxflow/optimizer/grid.py) stand alone.
--
-- Which file models which part. A module has the name of its Python module, with the functions of the
-- class under their names, the leading underscore of a private one dropped; the children State hold
-- its data, the children Tests runs and instances, the other children theorems.
--   Aegis/Circuit     CircuitBreaker: trip, update_balance, record_trade_result, trip_manual,
--                     trip_on_error, reset, can_trade
--   Aegis/Trailing    TrailingStopManager: start_tracking, stop_tracking, update_price (advance is
--                     its body), should_trigger_stop, get_stop_price, is_tracking
--   Aegis/Portfolio   PositionState and PortfolioState: add_position, close_position (settle is its
--                     block), update_prices, the resets, and the figures that are computed
--   Aegis/Guardrails  TradingGuardrails and GuardrailEnforcer: validate_order, split at its groups of
--                     checks into check_exposure, check_risk, check_losses, check_rates;
--                     check_drawdown
--   Aegis/Profiles, Aegis/Quant   the profiles; position size, percentage stop, risk and reward,
--                     Kelly fraction, expectancy
--   Aegis/Risk        RiskManager: approve_order (check_profile, check_stop, check_reward and
--                     check_balance are its later checks), and every method that changes it
--   Exchange/Paper    PaperTradingEngine with its tables: Market has balances and
--                     execute_market_order, Paper the positions, Book the calls over all positions
--   Exchange/Orders   OrderManager in paper mode
--   Agent/Execution   the execute methods of the six guarded tools, over a risk manager and an order
--                     manager
--   Agent/Session     TradingSession and SessionStats
--   Agent/Scheduler   TaskScheduler: NextRun has _calculate_next_run, Loop the rounds; Base/Calendar is
--                     the part of datetime that they use
--   Backtester/Engine BacktestEngine: Engine has orders, positions and signals, Candles the candles of
--                     a timestamp, Run the loop, Figures the result, Steps what a run keeps
--   Core/Engine       TradingEngine in paper mode, and its OHLCVBuffer; Events has its handlers
--   Core/Events       EventBus; Steps has the tasks that use it, as a relation of steps
--   Core/MtfBuffer    TimeframeBuffer; Multi has MultiTimeframeBuffer, Ticks the candles by definition
--   Core/Safeguards   LiveTradingSafeguards
--   Oracle/Signals    SignalType and TradingSignal
--   Optimizer/Grid    ParameterRange and ParameterGrid
--   Strategies/Grid, Strategies/Dca   GridStrategy and DCAStrategy
-- Base has the shared names, Python's dict, exceptions and clock, Number the numbers.
--
-- How it is represented. A float is a value of a type N and a Decimal of a type D, with their
-- operations as an instance of Number: the theorems hold of any, and name the laws of comparison,
-- of signs or of exact sums that they need. Number.Fixed is an instance with four decimals, on
-- which the tests and the examples run. Integers are natural numbers, of any size as in Python; no
-- count in these modules is ever decremented. A time is a number of microseconds since the epoch
-- and an argument of the call that reads the clock, which reads it once; a date is the number of
-- its day. A method takes the object and returns it changed, with its result; an exception is a
-- value of Result, and a method that can raise after a change returns the object beside it, but for
-- the backtester and the candle buffers, where what an exception leaves is not kept. A database
-- transaction that raises leaves the tables as they were. What another process answers is an
-- argument: the price of an exchange, a signal, a random id, how the agent, the engine or a callback
-- ends. Python's loops here go over a list, and are recursions on it; the loops of the agent and of
-- the scheduler are sequences of steps and rounds. Only the loop of the event bus takes a number of
-- rounds: as many as there are events in the queue are enough.
--
-- What is not modelled: messages, the log, published events, time stamps that nothing reads, and
-- output for display; the live mode of the order manager and the exchange clients, which call a
-- third-party library; the figures of the quant engine over arrays; the start, the live mode and the
-- agents of the engine. Feeds, indicators, language-model calls, memory, the reports of the
-- backtester, the runs of the optimizer and user interfaces are not part of this library.
pub mod Base
pub mod Number
pub mod Optimizer
pub mod Oracle
pub mod Strategies
pub mod Aegis
pub mod Exchange
pub mod Agent
pub mod Backtester
pub mod Core
