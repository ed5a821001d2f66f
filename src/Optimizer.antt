-- ===== src/Optimizer.antt =====
-- keryxflow/optimizer/: the combinations of parameters that are tried.
pub mod Grid
