-- ===== src/Maintenance.antt =====
-- On-demand maintenance of the two servers: services/maintenance.service.ts and
-- workers/maintenance.worker.ts of bot/packages/server/src.
pub mod Job
pub mod Service
pub mod Worker
