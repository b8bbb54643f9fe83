-- ===== src/MessageTransform/Whole.antt =====
-- `transform_messages` of crates/ri-llm-provider/src/message_transform.rs.
use ri.Base.{ℕ, Option, List, []}
use ri.Base.Int.{ℤ}
use ri.Message.{Host, Message}
use ri.Agent.Types.{Model}
use ri.MessageTransform.Images.{downgrade_unsupported_images}
use ri.MessageTransform.Assistant.{ToolCallIdNormalizer, transform_each}
use ri.MessageTransform.Synthetic.{insert_synthetic_tool_results}

unfoldable pub transform_messages :
    {H : Host}
    → (ℕ → ℤ)
    → List (Message H)
    → Model H
    → Option (ToolCallIdNormalizer H)
    → List (Message H)
transform_messages clock ms model normalizer =
    insert_synthetic_tool_results clock
      (transform_each model normalizer (downgrade_unsupported_images ms model) [])
