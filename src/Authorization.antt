-- ===== src/Authorization.antt =====
-- credit_harness/authorization: approvals, single-use capabilities and the side-effect ledger.
pub mod Models
pub mod Commands
pub mod Approvals
pub mod Capabilities
pub mod Ledger
pub mod Untouched
pub mod Lifecycle
pub mod Commits
pub mod Guards
pub mod Decisions
mod Tests
