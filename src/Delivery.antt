-- ===== src/Delivery.antt =====
-- certman/delivery and the delivery service: how certificates reach their targets.
pub mod K8s
pub mod Files
pub mod Ingress
pub mod Acm
pub mod Service
mod Tests
