-- ===== src/Migrations.antt =====
-- internal/store/migrations/migrations.go: the registry of migrations and the run over it.
pub mod Schema
pub mod Registry
pub mod Run
pub mod Resume
pub mod Erase
pub mod Upgrade
pub mod Reachable
pub mod Names
mod Tests
