-- ===== src/DestinationRoute.antt =====
-- integration/kube-ovn/destinationroute/plan.go: native destination-route intent, validated and
-- brought into a canonical order.
pub mod Types
pub mod Compile
pub mod Reach
