-- ===== src/Model.antt =====
-- crates/sentinel-core/src/model.rs: the types that the crates share.
pub mod Condition
pub mod Observation
pub mod Run
