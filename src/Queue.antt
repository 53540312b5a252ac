-- ===== src/Queue.antt =====
-- queue/: a bounded worker pool, a pool that sheds by sojourn time, and the gates in front of them.
pub mod Gate
pub mod Task
pub mod Promise
pub mod Codel
pub mod Pool
pub mod Cpu
pub mod Handler
mod Tests
