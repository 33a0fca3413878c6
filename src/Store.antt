-- ===== src/Store.antt =====
-- The state database: crates/sentinel-store/src/store.rs. A table is the list of its rows in the
-- order of their row ids; a transaction is a function that returns the new tables or an error, and
-- on an error the tables stay as they were.
pub mod Tables
pub mod Query
pub mod Cancel
pub mod Attempt
pub mod Record
pub mod Recover
pub mod Persist
pub mod Prune
pub mod Commit
pub mod Cooldown
pub mod Queue
pub mod Run
pub mod Latches
pub mod Loop
pub mod Frame
pub mod Committed
pub mod Withdrawn
pub mod Kept
pub mod Queued
pub mod Evolution
pub mod Status
pub mod Interrupted
