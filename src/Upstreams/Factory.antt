-- ===== src/Upstreams/Factory.antt =====
-- src/upstreams/factory.rs: discovery of backends, health checks, and the making of upstreams.
mod Discovery
mod Health
mod Make
pub mod Laws
pub mod Backends
pub mod Sets
unfoldable pub use Discovery.*
unfoldable pub use Health.*
unfoldable pub use Make.*
