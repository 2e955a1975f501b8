-- ===== src/ManagedGateway.antt =====
-- internal/managedgateway: the allocation registry of one location's gateways. Every control address
-- and every port that a gateway ever got is retained in one ConfigMap.
pub mod Types
pub mod Decode
pub mod Claims
pub mod Registry
pub mod Reserve
pub mod Allocate
