-- ===== src/Latch.antt =====
-- The latch of a condition: crates/sentinel-core/src/analysis.rs, `advance_condition` and
-- `copy_state_to_evaluation`. A `&mut` argument is returned.
pub mod Advance
pub mod Spec
pub mod Invariant
pub mod Episodes
pub mod History
