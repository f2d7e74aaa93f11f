-- ===== src/Worker.antt =====
-- The worker: its executors, the tasks that it has in flight, and its answers to the control plane.
pub mod Service
pub mod Executor
pub mod Executable
pub mod Client
pub mod Registration
pub mod Node
