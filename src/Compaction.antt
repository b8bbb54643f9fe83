-- ===== src/Compaction.antt =====
-- Compaction (crates/ri-agent-core/src/harness/compaction.rs), part by part: the estimates of
-- tokens, and where a branch is cut.
pub mod Estimate
pub mod Usage
pub mod Cut
pub mod Files
pub mod Prepare
pub mod Branch
mod Samples
