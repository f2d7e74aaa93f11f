-- ===== src/Events.antt =====
-- The event bus, and the stream of events that a client of the control plane gets.
pub mod Bus
pub mod Stream
