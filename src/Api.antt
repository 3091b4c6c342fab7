-- ===== src/Api.antt =====
-- internal/api.
pub mod Limiter
pub mod Gate
pub mod Settings
pub mod Login
pub mod Password
pub mod Backup
mod Tests
mod GateTests
mod LoginTests
mod PasswordTests
mod SettingsTests
mod BackupTests
