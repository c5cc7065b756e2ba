-- ===== src/Backup.antt =====
-- Backups: services/backup.schedule.ts and services/backup.container.ts.
pub mod Schedule
pub mod Container
pub mod Rotation
pub mod Bundle
pub mod Run
pub mod Restore
pub mod Worker
