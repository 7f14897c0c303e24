-- ===== src/Recovery.antt =====
-- credit_harness/recovery: what becomes of an effect whose outcome is not known.
pub mod Models
pub mod Sync
pub mod Proof
pub mod Lease
pub mod Settle
pub mod Untouched
pub mod Commits
pub mod Scan
pub mod Resume
pub mod Exclusion
pub mod Holder
pub mod Proved
mod Tests
