-- ===== src/Tests.antt =====
-- Runs of the models at concrete data, and the theorems at inputs where their hypotheses hold.
mod Wg
mod Clients
mod Jobs
mod Alerts
mod Backups
mod Requests
mod Polls
