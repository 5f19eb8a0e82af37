-- ===== src/Xray.antt =====
-- internal/backend/xray: the backend for the xray proxy.
pub mod Health
pub mod Config
pub mod Api
pub mod Lifecycle
pub mod Runner
pub mod Repopulate
