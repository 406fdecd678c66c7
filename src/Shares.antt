-- ===== src/Shares.antt =====
-- The shares that deployers hold in one resource pool, over sequences of the calls that write it:
-- `BegResource` and `ReleaseResource` (controllers/deploy/deployer.go), and the accounts of the pool
-- (controllers/resourcepool_controller.go).
pub mod System
pub mod Totals
pub mod Safety
pub mod Bag
