-- ===== src/Wg.antt =====
-- WireGuard on Server A: bot/packages/server/src/services/wg.conf.ts and wg.service.ts.
pub mod Conf
pub mod Alloc
