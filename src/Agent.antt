-- ===== src/Agent.antt =====
-- keryxflow/agent: the tools that place orders, and the trading session.
pub mod Execution
pub mod Scheduler
pub mod Session
