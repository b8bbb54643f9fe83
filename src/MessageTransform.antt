-- ===== src/MessageTransform.antt =====
-- How a conversation is made fit for a model: crates/ri-llm-provider/src/message_transform.rs.
pub mod Images
pub mod Assistant
pub mod Synthetic
pub mod Whole
pub mod Covers
pub mod Answered
pub mod Complete
pub mod NoImages
mod Samples
