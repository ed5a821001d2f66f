-- ===== src/Aegis.antt =====
-- keryxflow/aegis: the risk layer.
pub mod Circuit
pub mod Trailing
pub mod Portfolio
pub mod Guardrails
pub mod Profiles
pub mod Quant
pub mod Risk
