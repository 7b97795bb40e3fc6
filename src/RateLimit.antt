-- ===== src/RateLimit.antt =====
-- internal/pkg/ratelimit/ratelimit.go: the token bucket that all crawlers share.
pub mod Bucket
pub mod Bounds
mod Tests
