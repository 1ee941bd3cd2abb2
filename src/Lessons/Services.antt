-- ===== src/Lessons/Services.antt =====
-- Lessons about services beside the proxy.
pub mod VisitorCounter
pub mod Configuration
pub mod DaemonMode
pub mod ThreadingModel
pub mod Observability
