-- ===== src/Lessons/Balancing.antt =====
-- Lessons about the choice of a backend from a pool.
pub mod RoundRobin
pub mod WeightedLb
pub mod ConsistentHashing
pub mod ActivePassive
pub mod FileDiscovery
pub mod HealthCheckTcp
pub mod HealthCheckHttp
pub mod CustomHealthCheck
