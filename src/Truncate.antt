-- ===== src/Truncate.antt =====
-- The cutting of tool output (crates/ri-agent-core/src/harness/truncate.rs), part by part. The
-- sizes are `usize`; every sum is at most the length of a text that is in memory, or one more.
pub mod Bytes
pub mod Fit
pub mod Utf8
pub mod Lines
pub mod Result
pub mod Head
pub mod Tail
mod Samples
