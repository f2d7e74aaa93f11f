-- ===== src/Domain.antt =====
-- common/domain: the data model that the control plane and the worker share.
pub mod TaskStatus
pub mod WorkflowStatus
pub mod Task
pub mod Workflow
pub mod Cycle
pub mod Build
pub mod Dag
