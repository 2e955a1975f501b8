-- ===== src/Examples.antt =====
-- Concrete inputs, runs on them, and the theorems applied to them.
mod Api
mod Codes
mod Allocations
mod Gateways
mod Locks
mod Ids
mod Plans
mod Routes
mod Domains
mod Site
mod Sync
mod Platform
