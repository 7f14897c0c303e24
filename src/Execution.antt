-- ===== src/Execution.antt =====
-- The services that run the transactions one after another and call the remote system between them.
pub mod Process
pub mod Service
pub mod Sends
pub mod Once
pub mod Recover
pub mod Recovers
pub mod Settled
pub mod Claimed
pub mod Twice
pub mod Replies
mod Compute
mod Tests
