-- ===== src/Agent/Types.antt =====
-- The data of the agent: messages, events and state of crates/ri-agent-core/src/types.rs, and the
-- model and stream events of crates/ri-llm-provider/src/types.rs that they hold.
use ri.Base.{ℕ, Bool, Option, List, Text, none, some, [], false}
use ri.Base.Maps.{TextMap}
use ri.Message.{
  Host, Message, UserMessage, AssistantMessage, ToolResultMessage, TextContent, ImageContent, Usage,
  StopReason, ToolCall,
}

pub data ThinkingLevel : Type 0 where
  off minimal low medium high x_high max : ThinkingLevel

pub data InputKind : Type 0 where
  text image : InputKind

pub record ModelCostTier (H : Host) : Type 0 where
  pub input_tokens_above : ℕ
  pub input : H.Float
  pub output : H.Float
  pub cache_read : H.Float
  pub cache_write : H.Float

pub record ModelCost (H : Host) : Type 0 where
  pub input : H.Float
  pub output : H.Float
  pub cache_read : H.Float
  pub cache_write : H.Float
  pub tiers : List (ModelCostTier H)

pub record Model (H : Host) : Type 0 where
  pub id : Text
  pub name : Text
  pub api : Text
  pub provider : Text
  pub base_url : Text
  pub reasoning : Bool
  pub thinking_level_map : List (ThinkingLevel × Option Text)
  pub input : List InputKind
  pub cost : ModelCost H
  pub context_window : ℕ
  pub max_tokens : ℕ
  pub headers : TextMap Text
  pub compat : Option H.Value

pub data AgentMessage (H : Host) : Type 0 where
  user : UserMessage → AgentMessage H
  assistant : AssistantMessage H → AgentMessage H
  tool_result : ToolResultMessage H → AgentMessage H
  custom : H.Value → AgentMessage H

module _ {H : Host} where
  unfoldable pub to_llm_message : AgentMessage H → Option (Message H)
  to_llm_message (user m) = some (Message.user m)
  to_llm_message (assistant m) = some (Message.assistant m)
  to_llm_message (tool_result m) = some (Message.tool_result m)
  to_llm_message (custom v) = none

  unfoldable pub from_message : Message H → AgentMessage H
  from_message (Message.user m) = user m
  from_message (Message.assistant m) = assistant m
  from_message (Message.tool_result m) = tool_result m

pub data QueueMode : Type 0 where
  all one_at_a_time : QueueMode

pub data AgentToolResultContent : Type 0 where
  text : TextContent → AgentToolResultContent
  image : ImageContent → AgentToolResultContent

pub record AgentToolResult (H : Host) : Type 0 where
  pub content : List AgentToolResultContent
  pub details : Option H.Value
  pub usage : Option (Usage H)
  pub added_tool_names : Option (List Text)
  pub terminate : Bool

pub data AssistantMessageEvent (H : Host) : Type 0 where
  start : (partial : AssistantMessage H) → AssistantMessageEvent H
  text_start : (content_index : ℕ) (partial : AssistantMessage H) → AssistantMessageEvent H
  text_delta :
      (content_index : ℕ) (delta : Text) (partial : AssistantMessage H) → AssistantMessageEvent H
  text_end :
      (content_index : ℕ) (content : Text) (partial : AssistantMessage H) → AssistantMessageEvent H
  thinking_start : (content_index : ℕ) (partial : AssistantMessage H) → AssistantMessageEvent H
  thinking_delta :
      (content_index : ℕ) (delta : Text) (partial : AssistantMessage H) → AssistantMessageEvent H
  thinking_end :
      (content_index : ℕ) (content : Text) (partial : AssistantMessage H) → AssistantMessageEvent H
  toolcall_start : (content_index : ℕ) (partial : AssistantMessage H) → AssistantMessageEvent H
  toolcall_delta :
      (content_index : ℕ) (delta : Text) (partial : AssistantMessage H) → AssistantMessageEvent H
  toolcall_end :
      (content_index : ℕ) (tool_call : ToolCall H) (partial : AssistantMessage H)
      → AssistantMessageEvent H
  done : (reason : StopReason) (message : AssistantMessage H) → AssistantMessageEvent H
  error : (reason : StopReason) (error : AssistantMessage H) → AssistantMessageEvent H

pub data AgentEvent (H : Host) : Type 0 where
  agent_start : AgentEvent H
  agent_end : (messages : List (AgentMessage H)) → AgentEvent H
  turn_start : AgentEvent H
  turn_end : (message : AgentMessage H) (tool_results : List (ToolResultMessage H)) → AgentEvent H
  message_start : (message : AgentMessage H) → AgentEvent H
  message_update :
      (message : AgentMessage H) (assistant_message_event : AssistantMessageEvent H) → AgentEvent H
  message_end : (message : AgentMessage H) → AgentEvent H
  tool_execution_start : (tool_call_id tool_name : Text) (args : H.Value) → AgentEvent H
  tool_execution_update :
      (tool_call_id tool_name : Text) (args : H.Value) (partial_result : AgentToolResult H)
      → AgentEvent H
  tool_execution_end :
      (tool_call_id tool_name : Text) (result : AgentToolResult H) (is_error : Bool) → AgentEvent H

-- `Tool` stands for `AgentTool`, which holds the code of the tools; the state only keeps them.
pub record AgentState (H : Host) (Tool : Type 0) : Type 0 where
  pub system_prompt : Text
  pub model : Model H
  pub thinking_level : ThinkingLevel
  pub tools : List Tool
  pub messages : List (AgentMessage H)
  pub is_streaming : Bool
  pub streaming_message : Option (AgentMessage H)
  pub pending_tool_calls : List Text
  pub error_message : Option Text

module _ {H : Host} (Tool : Type 0) where
  unfoldable pub initial_state : Model H → AgentState H Tool
  initial_state m = record {
    system_prompt = [];
    model = m;
    thinking_level = off;
    tools = [];
    messages = [];
    is_streaming = false;
    streaming_message = none;
    pending_tool_calls = [];
    error_message = none;
  }
