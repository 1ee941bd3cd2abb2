-- ===== src/Middlewares.antt =====
-- src/middlewares: the three plugins that the crate implements.
pub mod IpRestriction
pub mod RequestSize
pub mod Metrics
