-- ===== src/Api.antt =====
-- api/v1alpha1: the custom resources, and the part of the Kubernetes object header that the code
-- reads and writes. A pointer that may be nil is an `Option`.
pub mod Meta
pub mod Application
pub mod Builder
pub mod Deployer
pub mod Workflow
pub mod ResourcePool
pub mod Schema
