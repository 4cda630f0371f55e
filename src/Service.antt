-- ===== src/Service.antt =====
-- The agent service (apps/server/src/agent-service.ts): what each method does to the database.
pub mod Errors
pub mod Agents
pub mod Allowlist
pub mod Approvals
pub mod Evidence
pub mod Runs
pub mod Failing
pub mod Outcomes
pub mod Recording
pub mod Execution
pub mod Settling
pub mod Releasing
pub mod Conclusion
pub mod Completing
pub mod Resolving
pub mod Clearing
pub mod Allowing
pub mod Hosts
pub mod System
mod Tests
mod ApprovalTests
