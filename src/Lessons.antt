-- ===== src/Lessons.antt =====
-- The lessons of examples/: programs on their own, each about one feature of the framework.
pub mod Shared
pub mod PathRouting
pub mod QueryParams
pub mod BodyInspection
pub mod InflightLimit
pub mod StickySessions
pub mod GracefulShutdown
pub mod EchoServer
pub mod DynamicReconfiguration
pub mod Peers
pub mod Balancing
pub mod Limits
pub mod Services
pub mod Caching
pub mod Mains
