-- ===== src/Strategies.antt =====
-- keryxflow/strategies/: the grid and the cost-averaging strategy.
pub mod Grid
pub mod Dca
