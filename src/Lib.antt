-- ===== src/Lib.antt =====
-- vpn-relay: a two-server VPN with a Telegram bot. This library models the core of the bot's server,
-- bot/packages/server/src, and of the types it shares with the web app, bot/packages/shared/src. Paths
-- below are under bot/packages/server/src.
--
-- The parts and the files that model them:
-- - Client/Table and Client/Usage: the tables clients and traffic_snapshots with the queries of
--   db/queries.ts. A row is a record; an UPDATE maps over the rows, a SELECT filters them.
-- - Client/World and Client/Commands: what the services act on. `World` holds the tables, Server A's
--   live WireGuard, its conf and routing rules, and the user lists of XRay and sing-box; a `Command` is
--   a step from a world to a world that may fail as by an exception. Each call out of the process, an
--   SSH command or the write of a file, takes one reply from a list: answered, lost without its
--   effect, or late, with its effect and a failure. The `wg` commands are the parameter `Wireguard`.
--   They model syncConfigAndRestart of services/xray.service.ts and hysteria.service.ts,
--   syncRoutingAndRestart of xray-uplink.service.ts, and the peers of wg.service.ts.
-- - Client/Service: services/client.service.ts (suspendClient, resumeClient, deleteClient, renameClient,
--   updateQuota, updateExpiry, updateWgTransport, ensureSubToken, rotateSubToken).
-- - Client/Create: createClient, with addClient of wg.service.ts. A step is a call that may fail, so a
--   create may stop at each of them.
-- - Client/Overlap: creates that overlap, findFreeIp split at its await, under its mutex.
-- - Client/Quota: workers/quota.worker.ts; Client/Expiry: workers/ttl.worker.ts with the comparison of
--   texts in its query. Client/Effects, Client/Access, Client/Peers, Client/Quota/Enforced, Client/Quota/Reopened and
--   Client/Expiry with its children Late and Entered hold the proofs about these.
-- - Wg/Conf, Wg/Conf/Scan: services/wg.conf.ts, the text of wg-clients.conf, character by character.
-- - Wg/Alloc: findFreeIp of services/wg.service.ts.
-- - Maintenance/Job: the table maintenance_jobs with its unique index of active jobs;
--   Maintenance/Service: services/maintenance.service.ts; Maintenance/Worker and its
--   child Startup: workers/maintenance.worker.ts. What a host reports is the record `Probe`.
-- - Alert and Alert/Checks: workers/alert.worker.ts, its helpers and its fourteen checks.
-- - Metrics: services/metrics.cache.ts, one server's slot.
-- - Backup/Schedule and Backup/Container: services/backup.schedule.ts and backup.container.ts.
-- - Backup/Bundle, Backup/Rotation, Backup/Run and Backup/Restore: services/backup.service.ts. A run is
--   split at its first await, so that requests may come between its two halves; each of its calls may
--   throw, the UPDATEs that close its row included. Backup/Worker:
--   workers/backup.worker.ts.
-- - Traffic and Traffic/Address: workers/traffic.worker.ts, its counters and its addresses.
-- - Updates with its children Changelog, Message and Server: workers/updates.worker.ts and parseChangelog of
--   services/updates.service.ts. Health: workers/health.worker.ts. Lifecycle: lifecycle.ts. Rollup:
--   workers/rollup.worker.ts with rollupClientTraffic and rollupServerTraffic of db/queries.ts.
-- - Subscription and Subscription/Routes: services/subscription.service.ts and
--   api/routes/subscription.ts. Api/Clients and Api/Auth: api/routes/clients.ts and
--   api/middleware/tma-auth.ts.
-- - Prelude: the names shared by all. Tests: runs at concrete data.
--
-- Interaction: the workers read the tables and call the services; the services write the table and
-- then rebuild the configs from it; the maintenance worker invalidates the metrics cache, and the alert
-- worker asks the maintenance service whether to keep silent.
--
-- Numbers: all are natural numbers without a bound, as the values in play stay far below 2^53. Times are
-- milliseconds, a DATETIME is seconds, but expires_at keeps the text that was written, with the time that
-- `Date` reads in it (`Expiry`); a quota is thousandths of a gigabyte. A day number before 1970 is an
-- integer ℤ of Prelude/Int.
-- Fuel: the scan of parseConfIps gets one round for each character of the conf, and each round takes
-- one away; the loop of findFreeIp has the 253 rounds of the octets 2 to 254. splitMessage gets one
-- round more than the text has characters; that this is enough is a theorem. The digits of a
-- number get one round more than its value.
--
-- Not modelled: the bot's menus, the other REST routes, the web app and the Ansible roles (input, output
-- and text); the parsing of a probe's output, of conntrack and of apt. A restart of XRay or
-- sing-box is the write of its trigger file. SQLite's date functions are the parameters
-- `Calendar` and `DateTexts`, scrypt and AES-256-GCM the parameter `Crypto`; tar, JSON and the checks of
-- a restored database are `Readers`, base64 and the generators of URIs `Uris`, HMAC and URLSearchParams
-- `Platform`.
pub mod Prelude
pub mod Wg
pub mod Maintenance
pub mod Backup
pub mod Alert
pub mod Metrics
pub mod Client
pub mod Updates
pub mod Traffic
pub mod Subscription
pub mod Api
pub mod Lifecycle
pub mod Health
pub mod Rollup
pub mod Tests
