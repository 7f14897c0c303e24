-- ===== src/Cases.antt =====
-- credit_harness/cases: the Case rows and the lock that every writer takes.
pub mod Models
pub mod Rows
pub mod Calls
pub mod Budget
mod Tests
