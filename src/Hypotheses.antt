-- ===== src/Hypotheses.antt =====
-- The hypotheses on a Case, and the deterministic rules that decide them from its Evidence.
pub mod Index
pub mod Models
pub mod Facts
pub mod Rules
pub mod Outcome
pub mod Gaps
pub mod Engine
pub mod Checked
pub mod Current
pub mod Basis
pub mod OpenGaps
pub mod Execute
mod Tests
