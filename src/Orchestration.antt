-- ===== src/Orchestration.antt =====
-- credit_harness/orchestration: durable work items, their leases and their handoffs.
pub mod Models
pub mod Work
pub mod EffectWork
pub mod Handoff
pub mod Quiet
pub mod QuietHandoff
pub mod Leases
pub mod Polling
pub mod Signals
pub mod Pause
pub mod Single
mod Tests
pub mod Routing
