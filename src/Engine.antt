-- ===== src/Engine.antt =====
-- infrastructure/control-plane/engine: the state of all workflows, and the handlers that move it.
pub mod State
pub mod Cancel
pub mod Handlers
pub mod Evolve
pub mod Cascade
pub mod Marking
pub mod Settled
pub mod Quiet
pub mod WellFormed
pub mod Reachable
pub mod Guarantees
pub mod Submitted
pub mod Effects
pub mod Notices
pub mod Downstream
