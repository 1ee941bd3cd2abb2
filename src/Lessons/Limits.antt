-- ===== src/Lessons/Limits.antt =====
-- Lessons about requests that are refused.
pub mod RateLimit
pub mod SlidingWindow
pub mod ConnectionFilter
pub mod RequestSizeLimit
pub mod AuthRequest
pub mod BasicAuth
