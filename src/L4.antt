-- ===== src/L4.antt =====
-- l4/: behavioural profiles and the baselines that they are compared with.
pub mod Models
pub mod Differ
pub mod Drift
pub mod Best
pub mod Engine
pub mod Verdict
pub mod Baselines
mod Tests
pub mod Counts
pub mod Guard
pub mod Profiler
pub mod Timing
