-- ===== src/Quarkus.antt =====
-- quarkus/: an overload detector, and the shedding of requests by priority and cohort.
pub mod Config
pub mod Priority
pub mod Detector
pub mod Shedder
pub mod Handler
mod Tests
