-- ===== src/PlatformPlan.antt =====
-- internal/platformplan/plan.go: the snapshots of a VPC for its locations.
pub mod Types
pub mod Names
pub mod Build
pub mod Snapshots
pub mod Attached
pub mod Remote
pub mod Peers
pub mod Laws
pub mod Complete
pub mod Accepts
