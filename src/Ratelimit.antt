-- ===== src/Ratelimit.antt =====
-- ratelimit/: the token buckets and the limiter.
pub mod Bucket
pub mod Limiter
mod Tests
