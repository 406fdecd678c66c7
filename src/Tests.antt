-- ===== src/Tests.antt =====
-- Runs on concrete objects, and the theorems at concrete inputs.
mod Memory
mod Samples
mod Core
mod Controllers
mod Deploy
mod Pods
mod Recovery
mod Shares
mod Startup
mod Copy
mod Rounds
mod Stored
mod Stores
mod Served
mod Reconciled
mod Ended
mod Launched
