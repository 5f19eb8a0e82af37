-- ===== src/Singbox.antt =====
-- internal/backend/singbox: the backend for the sing-box proxy.
pub mod Files
pub mod Updates
pub mod Runner
pub mod Stats
pub mod Lifecycle
pub mod Health
pub mod Config
