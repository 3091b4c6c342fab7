-- ===== src/Backup.antt =====
-- internal/backup, and the backup handlers of internal/api/backup_handlers.go.
pub mod Drill
pub mod Payload
pub mod Samples
mod Tests
