-- ===== src/Sentinel.antt =====
-- The crate crates/sentinel, which watches the instances: alert rules, the table of fired alerts, the
-- pass that evaluates the rules, the deltas of the wait statistics, file and index counters, and the tasks
-- that run all this.
pub mod Floats
pub mod Alerts
pub mod AlertStore
pub mod AlertEval
pub mod Waits
pub mod Scheduler
pub mod Keyed
pub mod Differences
pub mod IoLatency
pub mod IndexUsage
mod Tests
