-- ===== src/Router.antt =====
-- src/upstreams/router.rs: the table of routes, and the choice of a route for a request.
mod Defs
pub mod Build
pub mod Dispatch
pub mod Networks
pub mod Rejects
unfoldable pub use Defs.*
