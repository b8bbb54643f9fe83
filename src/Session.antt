-- ===== src/Session.antt =====
-- Sessions (crates/ri-agent-core/src/harness/session.rs), part by part.
pub mod Entry
pub mod Storage
pub mod Path
pub mod Tree
pub mod Context
mod Samples
