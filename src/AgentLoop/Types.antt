-- ===== src/AgentLoop/Types.antt =====
-- The data of the agent loop: crates/ri-agent-core/src/agent_loop.rs, and the tools, hooks and
-- providers of crates/ri-agent-core/src/types.rs that it calls.
-- `W` stands for all that the loop does not keep itself and that its callees read and change: each
-- of them is a function of it and gives it back changed. `S` stands for the settings of a request
-- that the loop hands on and never reads.
use ri.Base.{ℕ, Bool, Option, List, Text}
use ri.Base.Int.{ℤ}
use ri.Base.Maps.{TextMap}
use ri.Message.{Host, Message, AssistantMessage, ToolResultMessage, ToolCall, Usage}
use ri.Agent.Types.{
  Model, ThinkingLevel, AgentMessage, AgentEvent, AgentToolResult, AgentToolResultContent,
  AssistantMessageEvent,
}
use ri.Agent.Run.{Outcome, AgentContext}

pub data ToolExecutionMode : Type 0 where
  sequential parallel : ToolExecutionMode

-- Of crates/ri-llm-provider/src/types.rs, as are `StreamOptions` and `Context`.
pub record Tool (H : Host) : Type 0 where
  pub name : Text
  pub description : Text
  pub parameters : H.Value

-- The executor is given the id of the call and its arguments. It answers with the partial results
-- that it reports before it settles, in order, and then with what it settles on.
pub record AgentTool (H : Host) (W : Type 0) : Type 0 where
  pub definition : Tool H
  pub label : Text
  pub execution_mode : Option ToolExecutionMode
  pub argument_preparer : Option (H.Value → Outcome H.Value)
  pub executor : Text → H.Value → W → List (AgentToolResult H) × Outcome (AgentToolResult H) × W

abbrev pub LoopContext : Host → Type 0 → Type 0
LoopContext H W = AgentContext H (AgentTool H W)

pub record StreamOptions (W S : Type 0) : Type 0 where
  pub api_key : Option Text
  pub abort_flag : Option (W → Bool × W)
  pub rest : S

pub record SimpleStreamOptions (W S : Type 0) : Type 0 where
  pub stream : StreamOptions W S
  pub reasoning : Option ThinkingLevel
  pub rest : S

pub record Context (H : Host) : Type 0 where
  pub system_prompt : Option Text
  pub messages : List (Message H)
  pub tools : List (Tool H)

-- A stream of a response that ends: its events, and what `try_result` gives after them.
pub record AssistantMessageEventStream (H : Host) : Type 0 where
  pub events : List (AssistantMessageEvent H)
  pub try_result : Outcome (AssistantMessage H)

pub record AgentToolCallHookContext (H : Host) (W : Type 0) : Type 0 where
  pub tool_call_id : Text
  pub tool_name : Text
  pub input : H.Value
  pub assistant_message : AssistantMessage H
  pub tool_call : ToolCall H
  pub context : LoopContext H W

pub record AgentToolCallHookResult (H : Host) : Type 0 where
  pub input : Option H.Value
  pub block : Bool
  pub reason : Option Text

pub record AgentToolResultHookContext (H : Host) (W : Type 0) : Type 0 where
  pub tool_call_id : Text
  pub tool_name : Text
  pub input : H.Value
  pub result : AgentToolResult H
  pub is_error : Bool
  pub assistant_message : AssistantMessage H
  pub tool_call : ToolCall H
  pub context : LoopContext H W

pub record AgentToolResultHookResult (H : Host) : Type 0 where
  pub result : Option (AgentToolResult H)
  pub content : Option (List AgentToolResultContent)
  pub details : Option H.Value
  pub usage : Option (Usage H)
  pub terminate : Option Bool
  pub is_error : Option Bool

pub record AgentNextTurnContext (H : Host) (W : Type 0) : Type 0 where
  pub message : AssistantMessage H
  pub tool_results : List (ToolResultMessage H)
  pub context : LoopContext H W
  pub new_messages : List (AgentMessage H)

pub record AgentLoopTurnUpdate (H : Host) (W S : Type 0) : Type 0 where
  pub context : Option (LoopContext H W)
  pub model : Option (Model H)
  pub thinking_level : Option ThinkingLevel
  pub stream_options : Option (SimpleStreamOptions W S)

pub record AgentLoopConfig (H : Host) (W S : Type 0) : Type 0 where
  pub model : Model H
  pub stream_options : SimpleStreamOptions W S
  pub tool_call_hooks :
      List (AgentToolCallHookContext H W → W → Outcome (Option (AgentToolCallHookResult H)) × W)
  pub tool_result_hooks :
      List (AgentToolResultHookContext H W → W → Outcome (Option (AgentToolResultHookResult H)) × W)
  pub transform_context : Option (List (AgentMessage H) → W → Outcome (List (AgentMessage H)) × W)
  pub convert_to_llm : Option (List (AgentMessage H) → Outcome (List (Message H)))
  pub stream_provider : Option (
      Model H
      → Context H
      → SimpleStreamOptions W S
      → W
      → Outcome (AssistantMessageEventStream H) × W)
  pub api_key_provider : Option (Text → W → Outcome (Option Text) × W)
  pub prepare_next_turn :
      Option (AgentNextTurnContext H W → W → Outcome (Option (AgentLoopTurnUpdate H W S)) × W)
  pub should_stop_after_turn : Option (AgentNextTurnContext H W → W → Outcome Bool × W)
  pub queued_message_provider : Option (W → Outcome (List (AgentMessage H)) × W)
  pub follow_up_message_provider : Option (W → Outcome (List (AgentMessage H)) × W)
  pub event_sink : Option (AgentEvent H → W → W)
  pub skip_initial_queued_message_poll : Bool
  pub tool_execution : ToolExecutionMode
  pub max_turns : ℕ

pub record TurnOutcome (H : Host) : Type 0 where
  pub messages : List (AgentMessage H)
  pub tool_results : List (ToolResultMessage H)
  pub terminate : Bool
  pub terminal_assistant : Bool

pub record PreparedToolCall (H : Host) (W : Type 0) : Type 0 where
  pub index : ℕ
  pub tool_call_id : Text
  pub tool_name : Text
  pub args : H.Value
  pub event_args : H.Value
  pub assistant_message : AssistantMessage H
  pub tool_call : ToolCall H
  pub context : LoopContext H W
  pub tool : AgentTool H W

pub record ToolExecutionOutcome (H : Host) : Type 0 where
  pub index : ℕ
  pub tool_call_id : Text
  pub tool_name : Text
  pub result : AgentToolResult H
  pub is_error : Bool

pub data ToolCallPreparation (H : Host) (W : Type 0) : Type 0 where
  prepared : PreparedToolCall H W → ToolCallPreparation H W
  immediate : ToolExecutionOutcome H → ToolCallPreparation H W

-- What the loop calls beside its configuration: the request of the provider crate and its check of
-- arguments against a schema, the clock, the JSON objects of `serde_json`; and the executor of
-- futures, which says which of the pending ones is the next to be ready.
pub record Outside (H : Host) (W S : Type 0) : Type 0 where
  pub stream_simple :
      Model H
      → Context H
      → SimpleStreamOptions W S
      → W
      → Outcome (AssistantMessageEventStream H) × W
  pub validate_tool_arguments_value : Tool H → Text → H.Value → Outcome H.Value
  pub now_millis : W → ℤ × W
  pub object : TextMap H.Value → H.Value
  pub empty_object : H.Value
  pub next_ready : List (PreparedToolCall H W) → W → ℕ × W

-- The mutable state of the loop: the context, the event log that it returns, and the world. Beside
-- them `history` keeps all events in the order in which they happened, those included that only the
-- event sink is given.
pub record LoopState (H : Host) (W : Type 0) : Type 0 where
  pub context : LoopContext H W
  pub events : List (AgentEvent H)
  pub history : List (AgentEvent H)
  pub world : W
