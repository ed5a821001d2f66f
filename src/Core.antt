-- ===== src/Core.antt =====
-- keryxflow/core: candles, events.
pub mod Engine
pub mod Events
pub mod MtfBuffer
pub mod Safeguards
