-- ===== src/Policy.antt =====
-- The command policy (apps/server/src/command-policy.ts): capabilities to a decision.
pub mod Types
pub mod Rules
pub mod Evaluate
pub mod Guarantees
pub mod EgressHosts
pub mod Redact
pub mod Scan
mod Tests
