-- ===== src/AgentLoop/Prepare.antt =====
-- What is checked before a tool is run: `prepare_tool_call` of
-- crates/ri-agent-core/src/agent_loop.rs. An early return with an error is an `err` of `check_call`.
use ri.Base.{
  ℕ, Bool, true, false, Option, none, some, List, [], ◌∷◌, ◌++◌, Text, codes, text_eq,
  if◌then◌else◌, or_else,
}
use ri.Message.{Host, AssistantMessage, ToolCall}
use ri.Agent.Types.{AgentEvent, AgentToolResult, AgentToolResultContent}
use ri.Agent.Run.{Outcome, ok, err}
use ri.AgentLoop.Types.{
  AgentTool, LoopContext, AgentToolCallHookContext, AgentToolCallHookResult, AgentLoopConfig,
  ToolExecutionOutcome, ToolCallPreparation, prepared, immediate, Outside, LoopState,
}
use ri.AgentLoop.Record.{record_event}

abbrev pub operation_aborted : Text
operation_aborted = codes "Operation aborted"

abbrev pub was_blocked : Text
was_blocked = codes "Tool execution was blocked"

abbrev pub not_found : Text → Text
not_found name = codes "Tool " ++ (name ++ codes " not found")

module _ {H : Host} {W : Type 0} where
  -- `tools.iter().find(|tool| tool.definition.name == name)`.
  unfoldable pub find_tool : List (AgentTool H W) → Text → Option (AgentTool H W)
  find_tool [] name = none
  find_tool (tool ∷ tools) name =
      if text_eq tool.definition.name name then some tool else find_tool tools name

unfoldable pub with_tool : {T V W : Type 0} → T → Outcome V × W → Outcome (T × V) × W
with_tool tool (ok args, w) = (ok (tool, args), w)
with_tool tool (err e, w) = (err e, w)

unfoldable pub prepare_arguments : {V : Type 0} → Option (V → Outcome V) → V → Outcome V
prepare_arguments none args = ok args
prepare_arguments (some preparer) args = preparer args

read_flag : {W : Type 0} → Option (W → Bool × W) → W → Bool × W
read_flag none w = (false, w)
read_flag (some load) w = load w

module _ {H : Host} {W : Type 0} where
  -- `args` and `hook_context.input` are always equal, so one of them is kept.
  unfoldable pub honour :
      (AgentToolCallHookContext H W → W → Outcome H.Value × W)
      → AgentToolCallHookContext H W
      → Option (AgentToolCallHookResult H)
      → W
      → Outcome H.Value × W
  honour later ctx none w = later ctx w
  honour later ctx (some result) w =
      if result.block
      then (err (or_else was_blocked result.reason), w)
      else later (record ctx { input = or_else ctx.input result.input }) w

  unfoldable pub unless_aborted :
      (AgentToolCallHookContext H W → W → Outcome H.Value × W)
      → AgentToolCallHookContext H W
      → Option (AgentToolCallHookResult H)
      → Bool × W
      → Outcome H.Value × W
  unfolding honour
  unless_aborted later ctx result (true, w) = (err operation_aborted, w)
  unless_aborted later ctx result (false, w) = honour later ctx result w

  -- The last check of the abort flag, after the hooks.
  unfoldable pub finally : AgentToolCallHookContext H W → Bool × W → Outcome H.Value × W
  finally ctx (true, w) = (err operation_aborted, w)
  finally ctx (false, w) = (ok ctx.input, w)

module _ {H : Host} {W S : Type 0} where
  unfoldable pub loop_aborted : AgentLoopConfig H W S → W → Bool × W
  unfolding read_flag
  loop_aborted config w = read_flag config.stream_options.stream.abort_flag w

  unfoldable pub hook_answered :
      AgentLoopConfig H W S
      → (AgentToolCallHookContext H W → W → Outcome H.Value × W)
      → AgentToolCallHookContext H W
      → Outcome (Option (AgentToolCallHookResult H)) × W
      → Outcome H.Value × W
  unfolding unless_aborted
  hook_answered config later ctx (err e, w) = (err e, w)
  hook_answered config later ctx (ok result, w) =
      unless_aborted later ctx result (loop_aborted config w)

  unfoldable pub call_hooks :
      AgentLoopConfig H W S
      → List (AgentToolCallHookContext H W → W → Outcome (Option (AgentToolCallHookResult H)) × W)
      → AgentToolCallHookContext H W
      → W
      → Outcome H.Value × W
  unfolding hook_answered finally loop_aborted
  call_hooks config [] ctx w = finally ctx (loop_aborted config w)
  call_hooks config (hook ∷ hooks) ctx w =
      hook_answered config (call_hooks config hooks) ctx (hook ctx w)

module _ {H : Host} {W S : Type 0} (outside : Outside H W S) where
  unfoldable pub check_arguments :
      AgentLoopConfig H W S
      → LoopContext H W
      → AssistantMessage H
      → ToolCall H
      → Outcome H.Value
      → W
      → Outcome H.Value × W
  check_arguments config context assistant call (err e) w = (err e, w)
  check_arguments config context assistant call (ok args) w =
      call_hooks config config.tool_call_hooks
        (record {
          tool_call_id = call.id;
          tool_name = call.name;
          input = args;
          assistant_message = assistant;
          tool_call = call;
          context = context;
        })
        w

  unfoldable pub validate : AgentTool H W → ToolCall H → Outcome H.Value → Outcome H.Value
  validate tool call (err e) = err e
  validate tool call (ok args) =
      outside.validate_tool_arguments_value tool.definition call.name args

  -- The tool and the arguments that it is run with, or the error that the call ends with.
  unfoldable pub check_call :
      AgentLoopConfig H W S
      → LoopContext H W
      → AssistantMessage H
      → ToolCall H
      → Option (AgentTool H W)
      → W
      → Outcome (AgentTool H W × H.Value) × W
  unfolding check_arguments validate prepare_arguments with_tool
  check_call config context assistant call none w = (err (not_found call.name), w)
  check_call config context assistant call (some tool) w = with_tool tool (
      check_arguments config context assistant call
        (validate tool call
          (prepare_arguments tool.argument_preparer (outside.object call.arguments)))
        w)

  unfoldable pub error_tool_result : Text → AgentToolResult H
  error_tool_result e = record {
    content = AgentToolResultContent.text (record { text = e; text_signature = none }) ∷ [];
    details = some outside.empty_object;
    usage = none;
    added_tool_names = none;
    terminate = false;
  }

  unfoldable pub error_tool_execution_outcome : ℕ → Text → Text → Text → ToolExecutionOutcome H
  unfolding error_tool_result
  error_tool_execution_outcome index id name e = record {
    index = index;
    tool_call_id = id;
    tool_name = name;
    result = error_tool_result e;
    is_error = true;
  }

  unfoldable pub settle_call :
      ℕ
      → ToolCall H
      → AssistantMessage H
      → LoopContext H W
      → Outcome (AgentTool H W × H.Value)
      → ToolCallPreparation H W
  unfolding error_tool_execution_outcome
  settle_call index call assistant context (err e) =
      immediate (error_tool_execution_outcome index call.id call.name e)
  settle_call index call assistant context (ok (tool, args)) = prepared (record {
    index = index;
    tool_call_id = call.id;
    tool_name = call.name;
    args = args;
    event_args = outside.object call.arguments;
    assistant_message = assistant;
    tool_call = call;
    context = context;
    tool = tool;
  })

  unfoldable pub prepare_tool_call :
      AgentLoopConfig H W S
      → AssistantMessage H
      → ℕ
      → ToolCall H
      → LoopState H W
      → ToolCallPreparation H W × LoopState H W
  unfolding settle_call check_call find_tool
  prepare_tool_call config assistant index call s =
      let t =
        record_event config
          (AgentEvent.tool_execution_start call.id call.name (outside.object call.arguments)) s in
      let tool = find_tool t.context.tools call.name in
      let (checked, w) = check_call config t.context assistant call tool t.world in
      (settle_call index call assistant t.context checked, record t { world = w })
