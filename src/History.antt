-- ===== src/History.antt =====
-- The side-effect ledger over any sequence of committed transactions.
pub mod Sound
pub mod Steps
pub mod Reach
mod Tests
