-- ===== src/Build.antt =====
-- controllers/build: the job that builds an image, and what follows a build.
pub mod Names
pub mod Fetch
pub mod Raw
pub mod Job
pub mod Trigger
pub mod Still
pub mod Mounts
