-- ===== src/Evaluation.antt =====
-- credit_harness/evaluation: whether an incident is resolved, judged from the Evidence alone.
pub mod Models
pub mod Checks
pub mod Effects
pub mod Report
pub mod Snapshot
pub mod Passed
pub mod Verified
pub mod Final
pub mod Execute
pub mod Tests
