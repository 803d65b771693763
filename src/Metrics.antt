-- ===== src/Metrics.antt =====
-- analysis/metrics.py: round trips by first-in first-out matching, and the metrics of a run.
pub mod Matching
pub mod Summary
pub mod Drawdown
pub mod Objective
