-- ===== src/Schedule.antt =====
-- src/schedule.rs: the claim scheduler.
pub mod Ranges
pub mod State
pub mod Sizing
pub mod Float
pub mod Select
pub mod Assign
pub mod Release
pub mod Owners
pub mod Create
pub mod Adapt
pub mod Tests
