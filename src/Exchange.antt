-- ===== src/Exchange.antt =====
-- keryxflow/exchange: the paper trading engine and the order manager.
pub mod Paper
pub mod Orders
