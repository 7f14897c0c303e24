-- ===== src/Evidence.antt =====
-- Evidence: what an extractor read from an observation.
pub mod Models
