-- ===== src/Lessons/Caching.antt =====
-- Lessons about the cache of the framework.
mod Calls
pub mod MemoryCache
pub mod CacheControl
pub mod CacheLock
pub mod CachePurge
pub mod StaleWhileRevalidate
