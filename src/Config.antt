-- ===== src/Config.antt =====
-- src/config.rs: the schema of the gateway's YAML file and its defaults. A `Duration` is a number
-- of nanoseconds; what `serde` derives is not modelled, and a `HashMap` is an association list.
mod Upstreams
mod Routes
mod Server
pub mod Humantime
pub use Upstreams.*
pub use Routes.*
pub use Server.*
