-- ===== src/Backtester.antt =====
-- keryxflow/backtester/: the simulation of a strategy on past prices.
pub mod Engine
