-- ===== src/Supervision.antt =====
-- core/src/supervision: footprint watchdog, pressure monitor, shed scheduler, idle hibernation, and
-- the governor that runs them in one pass. Times, megabytes, bytes and rates are natural numbers.
pub mod Types
pub mod Registry
pub mod Watchdog
pub mod Pressure
pub mod Scheduler
pub mod Hibernation
pub mod Governor
pub mod Tests
