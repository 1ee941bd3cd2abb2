-- ===== src/Lessons/Mains.antt =====
-- examples/: the `main` functions of the lessons.
pub mod Server
pub mod Protocol
pub mod Proxies
pub mod Balanced
pub mod Observed
