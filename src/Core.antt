-- ===== src/Core.antt =====
-- controllers/core: what the controllers share. A child for each file of the package.
pub mod Context
pub mod Status
pub mod History
pub mod Pod
pub mod Job
pub mod Still
pub mod Keeps
pub mod Owner
pub mod Publish
pub mod Names
pub mod Begin
pub mod Archive
