-- ===== src/GlobalPlan.antt =====
-- internal/config/config.go and internal/plan/plan.go: the plan of a VPC over all clusters of a
-- domain.
pub mod Config
pub mod Types
pub mod Intents
pub mod Build
pub mod Mesh
