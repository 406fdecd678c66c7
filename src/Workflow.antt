-- ===== src/Workflow.antt =====
-- controllers/workflow: the builder and the deployer that a workflow stands for.
pub mod Dockerfile
pub mod Workload
pub mod Handoff
pub mod Still
pub mod Failure
