-- ===== src/Outbox.antt =====
-- The messages of a run: crates/sentinel-store/src/store.rs, `build_outbox` and what it calls.
pub mod Batch
pub mod Batching
pub mod Bounds
pub mod Pending
