-- ===== src/MessageTransform/Assistant.antt =====
-- The messages of the assistant for another model:
-- `transform_assistant_message` of crates/ri-llm-provider/src/message_transform.rs, and the loop of
-- `transform_messages` over it, which keeps the ids that were changed.
use ri.Base.{
  Bool, true, false, not, ◌&&◌, Option, none, some, List, [], ◌∷◌, Text, text_eq, is_empty,
  if◌then◌else◌, cons_some, or_else, trim,
}
use ri.Base.Maps.{TextMap, get, insert}
use ri.Message.{Host, Message, AssistantMessage, AssistantContent, ThinkingContent, ToolCall}
use ri.Agent.Types.{Model}
use ri.MessageTransform.Images.{plain_text}

-- `ToolCallIdNormalizer`.
abbrev pub ToolCallIdNormalizer : Host → Type 0
ToolCallIdNormalizer H = Text → Model H → AssistantMessage H → Text

is_signed : Option Text → Bool
is_signed none = false
is_signed (some s) = not (is_empty s)

-- An id that does not change is not noted.
note : TextMap Text → Text → Text → TextMap Text
note ids old new = if text_eq new old then ids else insert ids old new

module _ {H : Host} where
  unfoldable pub is_same_model : AssistantMessage H → Model H → Bool
  is_same_model m model =
      text_eq m.provider model.provider && text_eq m.api model.api && text_eq m.model model.id

  transform_thinking : Bool → ThinkingContent → Option (AssistantContent H)
  unfolding is_signed trim
  transform_thinking same t =
      if t.redacted
      then (if same then some (AssistantContent.thinking t) else none)
      else if same && is_signed t.thinking_signature
      then some (AssistantContent.thinking t)
      else if is_empty (trim t.thinking)
      then none
      else if same
      then some (AssistantContent.thinking t)
      else some (AssistantContent.text (plain_text t.thinking))

  -- The id that a call of another model gets.
  new_id : Option (ToolCallIdNormalizer H) → Model H → AssistantMessage H → Text → Text
  new_id none model m id = id
  new_id (some normalize) model m id = normalize id model m

  rename :
      Model H
      → Option (ToolCallIdNormalizer H)
      → AssistantMessage H
      → Bool
      → ToolCall H
      → ToolCall H
  unfolding new_id
  rename model normalizer m true call = call
  rename model normalizer m false call = record call {
    thought_signature = none;
    id = new_id normalizer model m call.id;
  }

  transform_content :
      Model H
      → Option (ToolCallIdNormalizer H)
      → AssistantMessage H
      → Bool
      → AssistantContent H
      → TextMap Text
      → Option (AssistantContent H) × TextMap Text
  unfolding transform_thinking rename note
  transform_content model normalizer m same (AssistantContent.thinking t) ids =
      (transform_thinking same t, ids)
  transform_content model normalizer m same (AssistantContent.text t) ids =
      (some (AssistantContent.text (if same then t else plain_text t.text)), ids)
  transform_content model normalizer m same (AssistantContent.tool_call call) ids =
      let renamed = rename model normalizer m same call in
      (some (AssistantContent.tool_call renamed), note ids call.id renamed.id)

  transform_all :
      Model H
      → Option (ToolCallIdNormalizer H)
      → AssistantMessage H
      → Bool
      → List (AssistantContent H)
      → TextMap Text
      → List (AssistantContent H) × TextMap Text
  unfolding transform_content
  transform_all model normalizer m same [] ids = ([], ids)
  transform_all model normalizer m same (c ∷ content) ids =
      let (first, ids') = transform_content model normalizer m same c ids in
      let (rest, ids'') = transform_all model normalizer m same content ids' in
      (cons_some first rest, ids'')

  unfoldable pub transform_assistant_message :
      AssistantMessage H
      → Model H
      → Option (ToolCallIdNormalizer H)
      → TextMap Text
      → AssistantMessage H × TextMap Text
  unfolding transform_all is_same_model
  transform_assistant_message m model normalizer ids =
      let (content, ids') =
        transform_all model normalizer m (is_same_model m model) m.content ids in
      (record m { content = content }, ids')

  unfoldable pub transform_one :
      Model H
      → Option (ToolCallIdNormalizer H)
      → Message H
      → TextMap Text
      → Message H × TextMap Text
  unfolding transform_assistant_message get
  transform_one model normalizer (Message.user m) ids = (Message.user m, ids)
  transform_one model normalizer (Message.tool_result m) ids = (
    Message.tool_result
        (record m { tool_call_id = or_else m.tool_call_id (get ids m.tool_call_id) }),
    ids,
  )
  transform_one model normalizer (Message.assistant m) ids =
      let (m', ids') = transform_assistant_message m model normalizer ids in
      (Message.assistant m', ids')

  unfoldable pub transform_each :
      Model H → Option (ToolCallIdNormalizer H) → List (Message H) → TextMap Text → List (Message H)
  unfolding transform_one
  transform_each model normalizer [] ids = []
  transform_each model normalizer (m ∷ ms) ids =
      let (m', ids') = transform_one model normalizer m ids in
      m' ∷ transform_each model normalizer ms ids'
