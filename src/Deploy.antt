-- ===== src/Deploy.antt =====
-- controllers/deploy: a deployer's share of a resource pool, its pods, and its service.
pub mod Names
pub mod Resources
pub mod Usage
pub mod Grant
pub mod Release
pub mod Template
pub mod Service
pub mod Ports
pub mod Selectors
pub mod Split
pub mod Handle
pub mod Still
pub mod Keeps
