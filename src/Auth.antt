-- ===== src/Auth.antt =====
-- src/brunost_judge/auth.py: the limiter of requests at the edge of the HTTP interface.
pub mod RateLimiter
mod Tests
