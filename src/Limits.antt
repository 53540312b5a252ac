-- ===== src/Limits.antt =====
-- concurrencylimits/: adaptive concurrency limits and the limiters that enforce them.
pub mod Limit
pub mod Limiter
pub mod Handler
pub mod ExpAvg
pub mod Held
pub mod Vegas
pub mod Gradient2
pub mod Gradient
mod Tests
pub mod Lifo
pub mod Windowed
