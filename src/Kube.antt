-- ===== src/Kube.antt =====
-- Kubernetes as the program sees it: the data of its API types, and what its libraries decide.
pub mod Validation
pub mod Json
pub mod Client
pub mod Ensures
pub mod Retained
