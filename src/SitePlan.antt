-- ===== src/SitePlan.antt =====
-- internal/siteplan/plan.go: the resources of one locally owned attachment.
pub mod Transit
pub mod Resources
pub mod Build
