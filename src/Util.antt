-- ===== src/Util.antt =====
-- internal/util: the bus that carries the log lines of a proxy, and the retry of a call.
pub mod Json
pub mod LogBus
pub mod Retry
