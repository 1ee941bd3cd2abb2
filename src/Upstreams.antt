-- ===== src/Upstreams.antt =====
-- src/upstreams: the two kinds of backends and the factory that makes them.
pub mod StaticUpstream
pub mod LoadBalancer
pub mod Factory
