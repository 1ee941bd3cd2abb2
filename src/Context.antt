-- ===== src/Context.antt =====
-- src/context.rs: the type-erased state of a request.
mod Types
mod Boxes
mod Store
pub mod Laws
pub mod Refinement
pub use Types.*
pub use Boxes.*
unfoldable pub use Store.*
