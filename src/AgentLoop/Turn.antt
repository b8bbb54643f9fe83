-- ===== src/AgentLoop/Turn.antt =====
-- One turn of the agent loop: `run_one_turn` of crates/ri-agent-core/src/agent_loop.rs.
use ri.Base.{
  ℕ, ◌+◌, Bool, true, false, ◌&&◌, Option, none, some, List, [], ◌∷◌, ◌++◌, Text, codes,
  if◌then◌else◌, is_empty, filter_map, map,
}
use ri.Message.{
  Host, Message, AssistantMessage, AssistantContent, ToolCall, ToolResultMessage, StopReason,
}
use ri.Agent.Types.{AgentMessage, AgentEvent, AssistantMessageEvent, to_llm_message}
use ri.Agent.Run.{Outcome, ok, err}
use ri.AgentLoop.Types.{
  AgentTool, LoopContext, Context, SimpleStreamOptions, AssistantMessageEventStream,
  AgentLoopConfig, TurnOutcome, PreparedToolCall, ToolExecutionOutcome, ToolCallPreparation,
  prepared, immediate, Outside, LoopState,
}
use ri.AgentLoop.Record.{record_event, push_message, push_all}
use ri.AgentLoop.Prepare.{find_tool, prepare_tool_call, error_tool_execution_outcome}
use ri.AgentLoop.Execute.{
  is_parallel, may_run_parallel, should_terminate_tool_batch, execute_tool_calls_in_source_order,
  record_tool_execution_end, record_ends, execute_prepared_tool_call, execute_tool_calls,
  record_result,
}

abbrev pub was_truncated : Text → Text
was_truncated name =
    codes "Tool call \""
    ++ (name
        ++ codes
            "\" was not executed: the response hit the output token limit, so its arguments may be truncated. Re-issue the tool call with complete arguments.")

-- `?`, on a result and the state that it leaves.
abbrev pub and_then : {A B S : Type 0} → (A → S → Outcome B × S) → Outcome A × S → Outcome B × S
and_then f (ok a, s) = f a s
and_then f (err e, s) = (err e, s)

module _ {H : Host} where
  unfoldable pub tool_call_of : AssistantContent H → Option (ToolCall H)
  tool_call_of (AssistantContent.tool_call call) = some call
  tool_call_of _ = none

  unfoldable pub assistant_tool_calls : AssistantMessage H → List (ToolCall H)
  unfolding tool_call_of
  assistant_tool_calls m = filter_map tool_call_of m.content

  -- The source's result is always `Some`.
  unfoldable pub current_partial_message : AssistantMessageEvent H → AssistantMessage H
  current_partial_message (AssistantMessageEvent.start m) = m
  current_partial_message (AssistantMessageEvent.text_start i m) = m
  current_partial_message (AssistantMessageEvent.text_delta i d m) = m
  current_partial_message (AssistantMessageEvent.text_end i c m) = m
  current_partial_message (AssistantMessageEvent.thinking_start i m) = m
  current_partial_message (AssistantMessageEvent.thinking_delta i d m) = m
  current_partial_message (AssistantMessageEvent.thinking_end i c m) = m
  current_partial_message (AssistantMessageEvent.toolcall_start i m) = m
  current_partial_message (AssistantMessageEvent.toolcall_delta i d m) = m
  current_partial_message (AssistantMessageEvent.toolcall_end i c m) = m
  current_partial_message (AssistantMessageEvent.done reason m) = m
  current_partial_message (AssistantMessageEvent.error reason m) = m

  convert :
      Option (List (AgentMessage H) → Outcome (List (Message H)))
      → List (AgentMessage H)
      → Outcome (List (Message H))
  convert none ms = ok (filter_map to_llm_message ms)
  convert (some converter) ms = converter ms

module _ {H : Host} {W : Type 0} where
  transform :
      Option (List (AgentMessage H) → W → Outcome (List (AgentMessage H)) × W)
      → List (AgentMessage H)
      → W
      → Outcome (List (AgentMessage H)) × W
  transform none ms w = (ok ms, w)
  transform (some transformer) ms w = transformer ms w

  to_context : LoopContext H W → Outcome (List (Message H)) → Outcome (Context H)
  to_context context (err e) = err e
  to_context context (ok ms) = ok (record {
    system_prompt = if is_empty context.system_prompt then none else some context.system_prompt;
    messages = ms;
    tools = map (λ (tool : AgentTool H W). tool.definition) context.tools;
  })

  allows_parallel : Option (AgentTool H W) → Bool
  unfolding may_run_parallel
  allows_parallel none = true
  allows_parallel (some tool) = may_run_parallel tool.execution_mode

  all_allow : List (AgentTool H W) → List (ToolCall H) → Bool
  unfolding allows_parallel find_tool
  all_allow tools [] = true
  all_allow tools (call ∷ calls) =
      allows_parallel (find_tool tools call.name) && all_allow tools calls

module _ {W S : Type 0} where
  with_key : SimpleStreamOptions W S → Option Text → SimpleStreamOptions W S
  with_key options none = options
  with_key options (some key) = record options {
    stream = record (options.stream) { api_key = some key };
  }

  ask_key :
      SimpleStreamOptions W S
      → Option (Text → W → Outcome (Option Text) × W)
      → Text
      → W
      → Outcome (SimpleStreamOptions W S) × W
  unfolding with_key
  ask_key options none provider w = (ok options, w)
  ask_key options (some api_key_provider) provider w =
      and_then (λ key w'. (ok (with_key options key), w')) (api_key_provider provider w)

module _ {H : Host} {W S : Type 0} where
  unfoldable pub build_llm_context :
      LoopContext H W → AgentLoopConfig H W S → W → Outcome (Context H) × W
  unfolding transform to_context convert to_llm_message
  build_llm_context context config w =
      and_then (λ ms w'. (to_context context (convert config.convert_to_llm ms), w'))
        (transform config.transform_context context.messages w)

  unfoldable pub use_parallel_tool_execution :
      List (ToolCall H) → LoopContext H W → AgentLoopConfig H W S → Bool
  unfolding all_allow is_parallel
  use_parallel_tool_execution calls context config =
      is_parallel config.tool_execution && all_allow context.tools calls

  -- The last message that a `Done` or an `Error` carried, and whether a start was announced.
  unfoldable pub stream_event :
      AgentLoopConfig H W S
      → AssistantMessageEvent H
      → (Option (AssistantMessage H) × Bool) × LoopState H W
      → (Option (AssistantMessage H) × Bool) × LoopState H W
  unfolding current_partial_message
  stream_event config (AssistantMessageEvent.start m) ((final, started), s) =
      ((final, true), record_event config (AgentEvent.message_start (AgentMessage.assistant m)) s)
  stream_event config (AssistantMessageEvent.done reason m) ((final, started), s) =
      ((some m, started), s)
  stream_event config (AssistantMessageEvent.error reason m) ((final, started), s) =
      ((some m, started), s)
  stream_event config e ((final, started), s) = (
    (final, started),
    record_event config
        (AgentEvent.message_update (AgentMessage.assistant (current_partial_message e)) e) s,
  )

  unfoldable pub read_stream :
      AgentLoopConfig H W S
      → List (AssistantMessageEvent H)
      → (Option (AssistantMessage H) × Bool) × LoopState H W
      → (Option (AssistantMessage H) × Bool) × LoopState H W
  unfolding stream_event
  read_stream config [] r = r
  read_stream config (e ∷ es) r = read_stream config es (stream_event config e r)

  unfoldable pub sort_prepared :
      AgentLoopConfig H W S
      → ToolCallPreparation H W × LoopState H W
      → (List (PreparedToolCall H W) × List (ToolExecutionOutcome H)) × LoopState H W
  sort_prepared config (prepared call, s) = ((call ∷ [], []), s)
  sort_prepared config (immediate o, s) = (([], o ∷ []), record_tool_execution_end config o s)

module _ {H : Host} {W S : Type 0} (outside : Outside H W S) where
  open_stream :
      AgentLoopConfig H W S
      → Context H
      → SimpleStreamOptions W S
      → W
      → Outcome (AssistantMessageEventStream H) × W
  open_stream config context options w = elim config.stream_provider [
    | none ↦ outside.stream_simple config.model context options w
    | some provider ↦ provider config.model context options w
  ]

  -- The beginning of the turn, up to the stream.
  unfoldable pub request :
      AgentLoopConfig H W S → LoopContext H W → W → Outcome (AssistantMessageEventStream H) × W
  unfolding open_stream ask_key build_llm_context
  request config context w =
      and_then
        (λ llm_context w'.
          and_then (λ options. open_stream config llm_context options)
            (ask_key config.stream_options config.api_key_provider config.model.provider w'))
        (build_llm_context context config w)

  -- The calls of a message that hit the token limit.
  unfoldable pub fail_truncated :
      AgentLoopConfig H W S
      → ℕ
      → List (ToolCall H)
      → LoopState H W
      → List (ToolResultMessage H) × LoopState H W
  unfolding error_tool_execution_outcome record_result
  fail_truncated config index [] s = ([], s)
  fail_truncated config index (call ∷ calls) s =
      let o =
        error_tool_execution_outcome outside index call.id call.name (was_truncated call.name) in
      let s1 =
        record_event config
          (AgentEvent.tool_execution_start call.id call.name (outside.object call.arguments)) s in
      let (message, s2) = record_result outside config o (record_tool_execution_end config o s1) in
      let (more, s3) =
        fail_truncated config (index + 1) calls
          (push_message (AgentMessage.tool_result message) s2) in
      (message ∷ more, s3)

  -- The calls that are ready to run, and the outcomes of the others, which end at once.
  unfoldable pub prepare_all :
      AgentLoopConfig H W S
      → AssistantMessage H
      → ℕ
      → List (ToolCall H)
      → LoopState H W
      → (List (PreparedToolCall H W) × List (ToolExecutionOutcome H)) × LoopState H W
  unfolding sort_prepared
  prepare_all config assistant index [] s = (([], []), s)
  prepare_all config assistant index (call ∷ calls) s =
      let ((ready, done), t) =
        sort_prepared config (prepare_tool_call outside config assistant index call s) in
      let ((more_ready, more_done), u) = prepare_all config assistant (index + 1) calls t in
      ((ready ++ more_ready, done ++ more_done), u)

  unfoldable pub record_results :
      AgentLoopConfig H W S
      → List (ToolExecutionOutcome H)
      → LoopState H W
      → List (ToolResultMessage H) × LoopState H W
  unfolding record_result
  record_results config [] s = ([], s)
  record_results config (o ∷ os) s =
      let (message, t) = record_result outside config o s in
      let (more, u) =
        record_results config os (push_message (AgentMessage.tool_result message) t) in
      (message ∷ more, u)

  -- The results in the order of the calls, and whether the batch ends the run.
  unfoldable pub run_parallel :
      AgentLoopConfig H W S
      → AssistantMessage H
      → List (ToolCall H)
      → LoopState H W
      → (List (ToolResultMessage H) × Bool) × LoopState H W
  run_parallel config assistant calls s =
      let ((ready, done), t) = prepare_all config assistant 0 calls s in
      let (outcomes, u) = execute_tool_calls outside config ready t in
      let all_outcomes = done ++ outcomes in
      let (results, v) =
        record_results config
          (filter_map (λ o. o) (execute_tool_calls_in_source_order all_outcomes))
          (record_ends config outcomes u) in
      ((results, should_terminate_tool_batch all_outcomes), v)

  unfoldable pub execute_if_prepared :
      AgentLoopConfig H W S
      → ToolCallPreparation H W × LoopState H W
      → ToolExecutionOutcome H × LoopState H W
  execute_if_prepared config (prepared call, s) = execute_prepared_tool_call outside config call s
  execute_if_prepared config (immediate o, s) = (o, s)

  unfoldable pub run_one_by_one :
      AgentLoopConfig H W S
      → AssistantMessage H
      → ℕ
      → List (ToolCall H)
      → LoopState H W
      → (List (ToolResultMessage H) × List (ToolExecutionOutcome H)) × LoopState H W
  unfolding execute_if_prepared record_result
  run_one_by_one config assistant index [] s = (([], []), s)
  run_one_by_one config assistant index (call ∷ calls) s =
      let (o, t) =
        execute_if_prepared config (prepare_tool_call outside config assistant index call s) in
      let (message, u) = record_result outside config o (record_tool_execution_end config o t) in
      let ((more, outcomes), v) = run_one_by_one config assistant (index + 1) calls u in
      ((message ∷ more, o ∷ outcomes), v)

  unfoldable pub run_sequential :
      AgentLoopConfig H W S
      → AssistantMessage H
      → List (ToolCall H)
      → LoopState H W
      → (List (ToolResultMessage H) × Bool) × LoopState H W
  run_sequential config assistant calls s =
      let ((results, outcomes), t) = run_one_by_one config assistant 0 calls s in
      (
        (results, should_terminate_tool_batch outcomes),
        push_all (map AgentMessage.tool_result results) t,
      )

  -- By the stop reason of the message.
  unfoldable pub run_tools :
      AgentLoopConfig H W S
      → StopReason
      → AssistantMessage H
      → LoopState H W
      → (List (ToolResultMessage H) × Bool) × LoopState H W
  unfolding fail_truncated run_parallel run_sequential
  run_tools config StopReason.length m s =
      let (results, t) = fail_truncated config 0 (assistant_tool_calls m) s in ((results, false), t)
  run_tools config StopReason.tool_use m s =
      if use_parallel_tool_execution (assistant_tool_calls m) s.context config
      then run_parallel config m (assistant_tool_calls m) s
      else run_sequential config m (assistant_tool_calls m) s
  run_tools config _ m s = (([], false), s)

unfoldable pub is_terminal : StopReason → Bool
is_terminal StopReason.error = true
is_terminal StopReason.aborted = true
is_terminal _ = false

module _ {H : Host} {W S : Type 0} where
  -- The assistant's message is announced, where the stream did not, and added to the context.
  unfoldable pub record_assistant :
      AgentLoopConfig H W S → Bool → AgentMessage H → LoopState H W → LoopState H W
  record_assistant config started m s =
      let t = if started then s else record_event config (AgentEvent.message_start m) s in
      record_event config (AgentEvent.message_end m) (push_message m t)

unfoldable pub final_message : {A : Type 0} → Option A → Outcome A → Outcome A
final_message none answer = answer
final_message (some m) answer = ok m

module _ {H : Host} {W S : Type 0} (outside : Outside H W S) where
  -- The end of the turn, with the message of the assistant or an error.
  unfoldable pub respond :
      AgentLoopConfig H W S
      → Bool
      → Outcome (AssistantMessage H)
      → LoopState H W
      → Outcome (TurnOutcome H) × LoopState H W
  unfolding record_assistant is_terminal run_tools
  respond config started (err e) s = (err e, s)
  respond config started (ok m) s =
      let message = AgentMessage.assistant m in
      let ((results, terminate), t) =
        run_tools outside config m.stop_reason m (record_assistant config started message s) in
      (
        ok (record {
          messages = message ∷ map AgentMessage.tool_result results;
          tool_results = results;
          terminate = terminate;
          terminal_assistant = is_terminal m.stop_reason;
        }),
        record_event config (AgentEvent.turn_end message results) t,
      )

  unfoldable pub read_response :
      AgentLoopConfig H W S
      → Outcome (AssistantMessageEventStream H)
      → LoopState H W
      → Outcome (TurnOutcome H) × LoopState H W
  unfolding final_message read_stream respond
  read_response config (err e) s = (err e, s)
  read_response config (ok stream) s =
      let ((final, started), t) = read_stream config stream.events ((none, false), s) in
      respond config started (final_message final stream.try_result) t

  unfoldable pub run_one_turn :
      AgentLoopConfig H W S → LoopState H W → Outcome (TurnOutcome H) × LoopState H W
  unfolding request read_response
  run_one_turn config s =
      let (stream, w) = request outside config s.context s.world in
      read_response config stream (record s { world = w })
