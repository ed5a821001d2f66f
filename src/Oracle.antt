-- ===== src/Oracle.antt =====
-- keryxflow/oracle/: the signals.
pub mod Signals
