-- ===== src/Adguard.antt =====
-- crates/sentinel-adguard/src/lib.rs: what an AdGuard Home server answers, and how a target's report
-- is made of its answers.
pub mod Types
pub mod Stats
pub mod Upstreams
pub mod Lists
pub mod Observe
pub mod Body
pub mod Rewrites
pub mod Filters
pub mod Shares
pub mod Entries
pub mod Averaged
pub mod Counted
