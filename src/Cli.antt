-- ===== src/Cli.antt =====
-- apps/sentinel-cli: how a run observes its targets, delivers its messages and ends.
pub mod Exit
pub mod Response
pub mod Promises
pub mod Profile
pub mod Observe
pub mod Answered
pub mod Deliver
pub mod Settled
