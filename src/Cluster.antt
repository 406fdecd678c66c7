-- ===== src/Cluster.antt =====
-- What the controllers run against: the objects of Kubernetes that they make, calls with their
-- three ways to end, and the API server and the libraries as a record of operations.
pub mod Workloads
pub mod Outcome
pub mod Client
pub mod Crd
pub mod Retry
pub mod Bind
pub mod CrdLaws
pub mod Still
pub mod Keeps
