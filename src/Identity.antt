-- ===== src/Identity.antt =====
-- Whether a payment that was observed is the one that a Case expects.
pub mod Models
pub mod Payment
pub mod Settled
pub mod Matching
