-- ===== src/AgentLoop/Call.antt =====
-- The calls of the agent loop, and its end after an error, of
-- crates/ri-agent-core/src/agent_loop.rs.
use ri.Base.{
  ℕ, Bool, Option, none, some, List, [], ◌∷◌, ◌++◌, Text, if◌then◌else◌, is_empty, last, length,
  drop, leb,
}
use ri.Base.Int.{ℤ}
use ri.Message.{Host, AssistantMessage, AssistantContent, UserContentValue, StopReason, usage_zero}
use ri.Agent.Types.{AgentMessage, AgentEvent}
use ri.Agent.Run.{Outcome, ok, err, is_assistant, assistant_last}
use ri.AgentLoop.Types.{LoopContext, AgentLoopConfig, Outside, LoopState}
use ri.AgentLoop.Record.{record_event, push_message, record_tool_result_message_events}
use ri.AgentLoop.Prepare.{loop_aborted}
use ri.AgentLoop.Run.{LoopReturn, returned, refused, panicked, no_context_messages, run_until_done}

-- `messages[start..].to_vec()`, which panics where the list is shorter.
unfoldable pub slice_from : {A : Type 0} → ℕ → List A → Option (List A)
slice_from start ms = if leb start (length ms) then some (drop start ms) else none

module _ {H : Host} {W S : Type 0} where
  unfoldable pub error_assistant : AgentLoopConfig H W S → Bool → Text → ℤ → AssistantMessage H
  error_assistant config is_aborted e now = record {
    content = AssistantContent.text (record { text = []; text_signature = none }) ∷ [];
    api = config.model.api;
    provider = config.model.provider;
    model = config.model.id;
    response_model = none;
    response_id = none;
    diagnostics = [];
    usage = usage_zero;
    stop_reason = if is_aborted then StopReason.aborted else StopReason.error;
    error_message = some e;
    timestamp = now;
  }

  unfoldable pub record_prompts :
      AgentLoopConfig H W S → List (AgentMessage H) → LoopState H W → LoopState H W
  record_prompts config [] s = s
  record_prompts config (m ∷ ms) s =
      record_prompts config ms (record_tool_result_message_events config m s)

  unfoldable pub finish_state :
      AgentLoopConfig H W S → AgentMessage H → LoopState H W → LoopState H W
  finish_state config m s = record_event config (AgentEvent.turn_end m []) (
      record_event config (AgentEvent.message_end m)
        (push_message m (record_event config (AgentEvent.message_start m) s)))

  unfoldable pub begin : AgentLoopConfig H W S → LoopContext H W → W → LoopState H W
  begin config context w = record_event config AgentEvent.turn_start (
      record_event config AgentEvent.agent_start
        (record { context = context; events = []; history = []; world = w }))

  unfoldable pub end_with :
      AgentLoopConfig H W S → Option (List (AgentMessage H)) × LoopState H W → LoopReturn H W
  end_with config (none, s) = panicked
  end_with config (some ms, s) = returned ms (record_event config (AgentEvent.agent_end ms) s)

module _ {H : Host} {W S : Type 0} (outside : Outside H W S) where
  -- `none` is the panic of the slice.
  unfoldable pub finish_agent_loop_with_error :
      AgentLoopConfig H W S
      → ℕ
      → Text
      → LoopState H W
      → Option (List (AgentMessage H)) × LoopState H W
  unfolding error_assistant finish_state slice_from
  finish_agent_loop_with_error config original_len e s =
      let (is_aborted, w) = loop_aborted config s.world in
      let (now, w') = outside.now_millis w in
      let t =
        finish_state config (AgentMessage.assistant (error_assistant config is_aborted e now))
          (record s { world = w' }) in
      (slice_from original_len t.context.messages, t)

  unfoldable pub settle :
      AgentLoopConfig H W S
      → ℕ
      → List (AgentMessage H)
      → Outcome (List (AgentMessage H)) × LoopState H W
      → Option (List (AgentMessage H)) × LoopState H W
  unfolding finish_agent_loop_with_error
  settle config original_len prompts (ok ms, s) = (some (prompts ++ ms), s)
  settle config original_len prompts (err e, s) =
      finish_agent_loop_with_error config original_len e s

  unfoldable pub agent_loop_prompt_messages :
      AgentLoopConfig H W S → LoopContext H W → List (AgentMessage H) → W → LoopReturn H W
  unfolding settle begin end_with record_prompts
  agent_loop_prompt_messages config context prompts w =
      let s = begin config (record context { messages = context.messages ++ prompts }) w in
      end_with config (
        settle config (length context.messages) prompts
          (run_until_done outside config prompts (record_prompts config prompts s)))

  -- `UserMessage::text` asks for the time.
  unfoldable pub agent_loop_prompt :
      AgentLoopConfig H W S → LoopContext H W → Text → W → LoopReturn H W
  unfolding agent_loop_prompt_messages
  agent_loop_prompt config context prompt w =
      let (now, w') = outside.now_millis w in
      agent_loop_prompt_messages config context
        (AgentMessage.user (record { content = UserContentValue.plain prompt; timestamp = now })
          ∷ [])
        w'

  unfoldable pub agent_loop_continue : AgentLoopConfig H W S → LoopContext H W → W → LoopReturn H W
  unfolding settle begin end_with
  agent_loop_continue config context w =
      if is_empty context.messages
      then refused no_context_messages
      else if is_assistant (last context.messages)
      then refused assistant_last
      else end_with config (
          settle config (length context.messages) []
            (run_until_done outside config [] (begin config context w)))
