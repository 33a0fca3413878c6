-- ===== src/Config.antt =====
-- crates/sentinel-core/src/config.rs.
pub mod Types
pub mod Names
pub mod Platform
pub mod Profiles
pub mod Policies
pub mod Targets
pub mod Validate
pub mod Accepted
