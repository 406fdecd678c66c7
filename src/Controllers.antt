-- ===== src/Controllers.antt =====
-- controllers: one reconciler for each custom resource.
pub mod Reconcile
pub mod Application
pub mod Pool
pub mod Builder
pub mod Deployer
pub mod Workflow
pub mod Recovery
