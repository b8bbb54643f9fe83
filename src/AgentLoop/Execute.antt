-- ===== src/AgentLoop/Execute.antt =====
-- The execution of tools: `execute_tool_calls` and what it calls, of
-- crates/ri-agent-core/src/agent_loop.rs.
-- Calls that run at once are taken one after another, in the order in which they end, which the
-- executor of futures chooses: what they do to the world meanwhile is not interleaved here.
use ri.Base.{
  ℕ, zero, suc, ◌+◌, Bool, true, false, not, ◌&&◌, Option, none, some, List, [], ◌∷◌, Text,
  if◌then◌else◌, or_else, length, is_empty, leb, map, latest, set, replicate,
}
use ri.Base.Int.{ℤ}
use ri.Message.{Host, ToolResultContent, ToolResultMessage}
use ri.Agent.Types.{AgentMessage, AgentEvent, AgentToolResult, AgentToolResultContent}
use ri.Agent.Run.{Outcome, ok, err}
use ri.AgentLoop.Types.{
  ToolExecutionMode, AgentToolResultHookContext, AgentToolResultHookResult, AgentLoopConfig,
  PreparedToolCall, ToolExecutionOutcome, Outside, LoopState,
}
use ri.AgentLoop.Record.{deliver, record_event, record_tool_result_message_events}
use ri.AgentLoop.Prepare.{error_tool_result}

unfoldable pub is_parallel : ToolExecutionMode → Bool
is_parallel ToolExecutionMode.parallel = true
is_parallel ToolExecutionMode.sequential = false

-- `execution_mode != Some(ToolExecutionMode::Sequential)`.
unfoldable pub may_run_parallel : Option ToolExecutionMode → Bool
unfolding is_parallel
may_run_parallel none = true
may_run_parallel (some mode) = is_parallel mode

to_result_content : AgentToolResultContent → ToolResultContent
to_result_content (AgentToolResultContent.text t) = ToolResultContent.text t
to_result_content (AgentToolResultContent.image i) = ToolResultContent.image i

-- `added_tool_names.filter(|names| !names.is_empty())`.
unless_empty : Option (List Text) → Option (List Text)
unless_empty none = none
unless_empty (some []) = none
unless_empty (some (n ∷ ns)) = some (n ∷ ns)

module _ {H : Host} where
  all_terminate : List (ToolExecutionOutcome H) → Bool
  all_terminate [] = true
  all_terminate (o ∷ os) = o.result.terminate && all_terminate os

  unfoldable pub should_terminate_tool_batch : List (ToolExecutionOutcome H) → Bool
  unfolding all_terminate
  should_terminate_tool_batch os = not (is_empty os) && all_terminate os

  -- The largest index and one, or 0 where there is none.
  unfoldable pub slots : List (ToolExecutionOutcome H) → ℕ
  slots [] = 0
  slots (o ∷ os) = let n = slots os in if leb (o.index + 1) n then n else o.index + 1

  -- A later outcome of the same index replaces an earlier one.
  unfoldable pub place :
      List (ToolExecutionOutcome H)
      → List (Option (ToolExecutionOutcome H))
      → List (Option (ToolExecutionOutcome H))
  place [] ordered = ordered
  place (o ∷ os) ordered = place os (set ordered o.index (some o))

  unfoldable pub execute_tool_calls_in_source_order :
      List (ToolExecutionOutcome H) → List (Option (ToolExecutionOutcome H))
  unfolding slots place
  execute_tool_calls_in_source_order os = place os (replicate (slots os) none)

  -- With the time that the source asks for.
  unfoldable pub tool_result_message_from_outcome : ℤ → ToolExecutionOutcome H → ToolResultMessage H
  unfolding to_result_content unless_empty
  tool_result_message_from_outcome now o = record {
    tool_call_id = o.tool_call_id;
    tool_name = o.tool_name;
    content = map to_result_content o.result.content;
    details = o.result.details;
    usage = o.result.usage;
    is_error = o.is_error;
    added_tool_names = unless_empty o.result.added_tool_names;
    timestamp = now;
  }

module _ {H : Host} {W : Type 0} where
  -- What a hook replaces; `result` and `is_error` of the source are always those of the context.
  replace_result :
      AgentToolResultHookContext H W → AgentToolResultHookResult H → AgentToolResultHookContext H W
  replace_result ctx r =
      let result = or_else ctx.result r.result in
      record ctx {
        result = record result {
          content = or_else result.content r.content;
          details = latest result.details r.details;
          usage = latest result.usage r.usage;
          terminate = or_else result.terminate r.terminate;
        };
        is_error = or_else ctx.is_error r.is_error;
      }

  unfoldable pub take_out :
      PreparedToolCall H W
      → List (PreparedToolCall H W)
      → ℕ
      → PreparedToolCall H W × List (PreparedToolCall H W)
  take_out call rest zero = (call, rest)
  take_out call [] (suc n) = (call, [])
  take_out call (next ∷ rest) (suc n) =
      let (out, others) = take_out next rest n in (out, call ∷ others)

  unfoldable pub all_parallel : List (PreparedToolCall H W) → Bool
  unfolding may_run_parallel
  all_parallel [] = true
  all_parallel (call ∷ calls) = may_run_parallel call.tool.execution_mode && all_parallel calls

module _ {H : Host} {W S : Type 0} where
  unfoldable pub report_updates :
      AgentLoopConfig H W S
      → PreparedToolCall H W
      → List (AgentToolResult H)
      → LoopState H W
      → LoopState H W
  report_updates config call [] s = s
  report_updates config call (partial ∷ more) s = report_updates config call more (
      deliver config
        (AgentEvent.tool_execution_update call.tool_call_id call.tool_name call.event_args partial)
        s)

  unfoldable pub record_tool_execution_end :
      AgentLoopConfig H W S → ToolExecutionOutcome H → LoopState H W → LoopState H W
  record_tool_execution_end config o s =
      record_event config
        (AgentEvent.tool_execution_end o.tool_call_id o.tool_name o.result o.is_error) s

  unfoldable pub record_ends :
      AgentLoopConfig H W S → List (ToolExecutionOutcome H) → LoopState H W → LoopState H W
  record_ends config [] s = s
  record_ends config (o ∷ os) s = record_ends config os (record_tool_execution_end config o s)

module _ {H : Host} {W S : Type 0} (outside : Outside H W S) where
  settled : Outcome (AgentToolResult H) → AgentToolResult H × Bool
  settled (ok result) = (result, false)
  settled (err e) = (error_tool_result outside e, true)

  result_hook_answered :
      (AgentToolResultHookContext H W → W → (AgentToolResult H × Bool) × W)
      → AgentToolResultHookContext H W
      → Outcome (Option (AgentToolResultHookResult H)) × W
      → (AgentToolResult H × Bool) × W
  unfolding replace_result
  result_hook_answered later ctx (ok none, w) = later ctx w
  result_hook_answered later ctx (ok (some r), w) = later (replace_result ctx r) w
  result_hook_answered later ctx (err e, w) = ((error_tool_result outside e, true), w)

  -- The result and whether it is an error, after the hooks.
  unfoldable pub call_result_hooks :
      List (AgentToolResultHookContext H W → W → Outcome (Option (AgentToolResultHookResult H)) × W)
      → AgentToolResultHookContext H W
      → W
      → (AgentToolResult H × Bool) × W
  unfolding result_hook_answered
  call_result_hooks [] ctx w = ((ctx.result, ctx.is_error), w)
  call_result_hooks (hook ∷ hooks) ctx w =
      result_hook_answered (call_result_hooks hooks) ctx (hook ctx w)

  -- The source's result is always `Ok`.
  unfoldable pub execute_prepared_tool_call :
      AgentLoopConfig H W S
      → PreparedToolCall H W
      → LoopState H W
      → ToolExecutionOutcome H × LoopState H W
  unfolding settled report_updates call_result_hooks
  execute_prepared_tool_call config call s =
      let (partials, answer, w) = call.tool.executor call.tool_call_id call.args s.world in
      let (result, is_error) = settled answer in
      let t = report_updates config call partials (record s { world = w }) in
      let ((result', is_error'), w') =
        call_result_hooks config.tool_result_hooks
          (record {
            tool_call_id = call.tool_call_id;
            tool_name = call.tool_name;
            input = call.args;
            result = result;
            is_error = is_error;
            assistant_message = call.assistant_message;
            tool_call = call.tool_call;
            context = call.context;
          })
          t.world in
      (
        record {
          index = call.index;
          tool_call_id = call.tool_call_id;
          tool_name = call.tool_name;
          result = result';
          is_error = is_error';
        },
        record t { world = w' },
      )

  unfoldable pub execute_in_order :
      AgentLoopConfig H W S
      → List (PreparedToolCall H W)
      → LoopState H W
      → List (ToolExecutionOutcome H) × LoopState H W
  execute_in_order config [] s = ([], s)
  execute_in_order config (call ∷ calls) s =
      let (o, t) = execute_prepared_tool_call config call s in
      let (os, u) = execute_in_order config calls t in (o ∷ os, u)

  -- `pending.next().await` until it is empty, on fuel: one call ends in each round.
  unfoldable pub execute_as_ready :
      ℕ
      → AgentLoopConfig H W S
      → List (PreparedToolCall H W)
      → LoopState H W
      → List (ToolExecutionOutcome H) × LoopState H W
  unfolding take_out
  execute_as_ready (suc n) config (call ∷ calls) s =
      let (ready, w) = outside.next_ready (call ∷ calls) s.world in
      let (next, pending) = take_out call calls ready in
      let (o, t) = execute_prepared_tool_call config next (record s { world = w }) in
      let (os, u) = execute_as_ready n config pending t in (o ∷ os, u)
  execute_as_ready _ config _ s = ([], s)

  unfoldable pub execute_tool_calls :
      AgentLoopConfig H W S
      → List (PreparedToolCall H W)
      → LoopState H W
      → List (ToolExecutionOutcome H) × LoopState H W
  unfolding all_parallel execute_in_order execute_as_ready is_parallel
  execute_tool_calls config calls s =
      if is_parallel config.tool_execution && all_parallel calls
      then execute_as_ready (length calls) config calls s
      else execute_in_order config calls s

  -- The message of an outcome, stamped and announced; its caller adds it to the context.
  unfoldable pub record_result :
      AgentLoopConfig H W S
      → ToolExecutionOutcome H
      → LoopState H W
      → ToolResultMessage H × LoopState H W
  record_result config o s =
      let (now, w) = outside.now_millis s.world in
      let message = tool_result_message_from_outcome now o in
      (
        message,
        record_tool_result_message_events config (AgentMessage.tool_result message)
            (record s { world = w }),
      )
