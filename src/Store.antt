-- ===== src/Store.antt =====
-- The store (apps/server/src/store.ts): migrations, the append-only event log, atomic mutations.
pub mod Migration
pub mod Log
pub mod Json
mod Tests
