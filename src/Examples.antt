-- ===== src/Examples.antt =====
-- Concrete runs of the code, one where each theorem's hypotheses hold.
pub mod Latches
pub mod Outboxes
pub mod Stores
pub mod Commits
pub mod Deliveries
pub mod Answers
pub mod Analyses
pub mod Configs
pub mod Upstreams
pub mod Exits
pub mod Texts
