-- ===== src/Cluster.antt =====
-- The workers that the control plane knows, the checks of their heartbeats, and its connections.
pub mod WorkerNode
pub mod RetryQueue
pub mod Registry
pub mod Client
