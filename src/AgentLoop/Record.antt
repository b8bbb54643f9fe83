-- ===== src/AgentLoop/Record.antt =====
-- How the agent loop of crates/ri-agent-core/src/agent_loop.rs records events and messages.
use ri.Base.{Bool, true, false, Option, none, some, List, [], ◌∷◌, ◌++◌, if◌then◌else◌}
use ri.Message.{Host}
use ri.Agent.Types.{AgentMessage, AgentEvent}
use ri.AgentLoop.Types.{AgentLoopConfig, LoopState}

module _ {H : Host} where
  -- Whether the returned log omits an event.
  unfoldable pub is_progress : AgentEvent H → Bool
  is_progress (AgentEvent.message_update m e) = true
  is_progress (AgentEvent.tool_execution_update id name args partial) = true
  is_progress _ = false

module _ {H : Host} {W : Type 0} where
  call_sink : Option (AgentEvent H → W → W) → AgentEvent H → W → W
  call_sink none e w = w
  call_sink (some sink) e w = sink e w

module _ {H : Host} {W S : Type 0} where
  -- The event sink is called, and the log stays as it is.
  unfoldable pub deliver : AgentLoopConfig H W S → AgentEvent H → LoopState H W → LoopState H W
  unfolding call_sink
  deliver config e s = record s {
    history = s.history ++ e ∷ [];
    world = call_sink config.event_sink e s.world;
  }

  unfoldable pub record_event : AgentLoopConfig H W S → AgentEvent H → LoopState H W → LoopState H W
  unfolding deliver is_progress
  record_event config e s =
      let t = deliver config e s in
      if is_progress e then t else record t { events = t.events ++ e ∷ [] }

module _ {H : Host} {W : Type 0} where
  -- `context.messages.push`.
  unfoldable pub push_message : AgentMessage H → LoopState H W → LoopState H W
  push_message m s = record s {
    context = record (s.context) { messages = s.context.messages ++ m ∷ [] };
  }

  unfoldable pub push_all : List (AgentMessage H) → LoopState H W → LoopState H W
  push_all [] s = s
  push_all (m ∷ ms) s = push_all ms (push_message m s)

module _ {H : Host} {W S : Type 0} where
  -- Also what is recorded for each prompt message.
  unfoldable pub record_tool_result_message_events :
      AgentLoopConfig H W S → AgentMessage H → LoopState H W → LoopState H W
  record_tool_result_message_events config m s =
      record_event config (AgentEvent.message_end m)
        (record_event config (AgentEvent.message_start m) s)

  unfoldable pub record_injected_messages :
      AgentLoopConfig H W S → List (AgentMessage H) → LoopState H W → LoopState H W
  record_injected_messages config [] s = s
  record_injected_messages config (m ∷ ms) s = record_injected_messages config ms (
      record_event config (AgentEvent.message_end m)
        (push_message m (record_event config (AgentEvent.message_start m) s)))
