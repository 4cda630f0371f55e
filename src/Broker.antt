-- ===== src/Broker.antt =====
-- The egress broker (apps/server/src/egress-broker.ts): the only edge of the agents' network.
pub mod Addresses
pub mod Endpoints
pub mod Gate
mod Tests
