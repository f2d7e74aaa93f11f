-- ===== src/Server.antt =====
-- The gRPC servers of the control plane and of a worker: the handlers and their answers.
pub mod Cluster
pub mod Orchestration
pub mod Sessions
pub mod Results
pub mod Submission
