-- ===== src/Limiter.antt =====
-- internal/middleware/ratelimiter.go: the token bucket of each client, and the limit on queries
-- that run at once.
pub mod Bucket
pub mod Burst
pub mod Worth
pub mod Runs
pub mod Slots
pub mod Admission
mod Tests
