-- ===== src/AgentLoop.antt =====
-- The agent loop of crates/ri-agent-core/src/agent_loop.rs, in its children: its data, the record of
-- its events, the calls of tools, one turn, and the loop over turns.
pub mod Types
pub mod Record
pub mod Prepare
pub mod Execute
pub mod Turn
pub mod Run
pub mod Call
pub mod Effect
pub mod Order
pub mod Joined
pub mod Allowed
pub mod Panic
pub mod Pairs
mod Samples
