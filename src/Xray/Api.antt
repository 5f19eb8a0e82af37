-- ===== src/Xray/Api.antt =====
-- internal/backend/xray/api.go: the calls to a running xray.
pub mod Pool
pub mod Account
pub mod Usages
pub mod Calls
mod Tests
