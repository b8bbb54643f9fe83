-- ===== src/Agent.antt =====
-- The stateful agent (crates/ri-agent-core/src/agent.rs, types.rs), part by part.
pub mod Types
pub mod Queue
pub mod Reduce
pub mod Machine
pub mod Run
pub mod Life
mod Samples
