-- ===== src/Analysis.antt =====
-- crates/sentinel-core/src/analysis.rs: what a run's observations say of each condition.
pub mod Evaluation
pub mod Window
pub mod Baseline
pub mod Behavior
pub mod Upstream
pub mod Latency
pub mod Policy
pub mod Filter
pub mod Rewrite
pub mod Target
pub mod Aggregate
pub mod Verdicts
pub mod Effective
pub mod Pooling
pub mod Group
pub mod Subject
pub mod Measures
pub mod Report
