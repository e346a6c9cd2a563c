-- ===== src/RateLimit.antt =====
-- internal/ratelimit: the tiered limits over the counter store.
pub mod Limiter
pub mod Backoff
