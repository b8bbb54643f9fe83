-- ===== src/AgentLoop/Order.antt =====
-- The order of tool results: the outcomes of tools that end in any order, and the slots that put
-- them back into the order of the calls, of crates/ri-agent-core/src/agent_loop.rs.
pub mod Slots
pub mod Keys
pub mod Answers
pub mod Last
