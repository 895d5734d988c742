-- ===== src/Resilience.antt =====
-- The resilience primitives (src/distsys/resilience). A time is a number of ticks of the injected
-- clock, an exact number where the program has a float.
pub mod Breaker
pub mod Admission
pub mod RateLimiter
pub mod Retry
