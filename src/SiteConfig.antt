-- ===== src/SiteConfig.antt =====
-- internal/siteconfig/config.go: administrator-owned grants, and their validation.
pub mod Types
pub mod Prefix
pub mod Validate
