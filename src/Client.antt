-- ===== src/Client.antt =====
-- The clients: the table `clients` with its queries (bot/packages/server/src/db/queries.ts,
-- packages/shared/src/types.ts), services/client.service.ts and the workers that suspend clients.
pub mod Table
pub mod Usage
pub mod World
pub mod Commands
pub mod Service
pub mod Effects
pub mod Access
pub mod Peers
pub mod Quota
pub mod Expiry
pub mod Create
pub mod Overlap
