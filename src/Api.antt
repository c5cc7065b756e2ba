-- ===== src/Api.antt =====
-- The REST API (api/middleware/tma-auth.ts, api/routes/clients.ts).
pub mod Auth
pub mod Clients
