-- ===== src/AgentLoop/Effect/Tools.antt =====
-- What the calls of tools add to the state of the loop of
-- crates/ri-agent-core/src/agent_loop.rs.
use mathlib.Core.List.{append-nil}
use ri.Base.{ℕ, zero, suc, ◌+◌, List, [], ◌∷◌, map, length, Bool-cases, inl, inr, ◌&&◌, subst}
use ri.Message.{Host, AssistantMessage, ToolCall, ToolResultMessage, StopReason}
use ri.Agent.Types.{AgentMessage, AgentEvent, AgentToolResult}
use ri.AgentLoop.Types.{
  AgentLoopConfig, LoopState, Outside, PreparedToolCall, ToolExecutionOutcome, ToolCallPreparation,
  prepared, immediate,
}
use ri.AgentLoop.Record.{record_event, push_message, push_all, deliver}
use ri.AgentLoop.Prepare.{prepare_tool_call, error_tool_execution_outcome}
use ri.AgentLoop.Execute.{
  execute_prepared_tool_call, report_updates, execute_in_order, execute_as_ready, take_out,
  execute_tool_calls, record_tool_execution_end, record_ends, record_result, all_parallel,
  tool_result_message_from_outcome, is_parallel,
}
use ri.AgentLoop.Turn.{
  fail_truncated, prepare_all, sort_prepared, record_results, run_parallel, run_one_by_one,
  execute_if_prepared, run_sequential, run_tools, assistant_tool_calls, use_parallel_tool_execution,
  was_truncated,
}
use ri.AgentLoop.Effect.{
  Effect, ends, Effect-trans, Effect-world, Effect-record, Effect-deliver_update, Effect-announce,
  Effect-push, Effect-push_all,
}

module _ {H : Host} where
  abbrev pub as_messages : List (ToolResultMessage H) → List (AgentMessage H)
  as_messages = map AgentMessage.tool_result

module _ {H : Host} {W S : Type 0} (config : AgentLoopConfig H W S) where
  Effect-updates :
      (call : PreparedToolCall H W) (rs : List (AgentToolResult H)) (s : LoopState H W)
      → Effect s (report_updates config call rs s) [] []
  unfolding report_updates
  Effect-updates call [] s = Effect-world s s.world
  Effect-updates call (r ∷ rs) s =
      let e = AgentEvent.tool_execution_update call.tool_call_id call.tool_name call.event_args r in
      Effect-trans
        (Effect-deliver_update config call.tool_call_id call.tool_name call.event_args r s)
        (Effect-updates call rs (deliver config e s))

  Effect-end :
      (o : ToolExecutionOutcome H) (s : LoopState H W)
      → Effect s (record_tool_execution_end config o s) [] []
  unfolding record_tool_execution_end
  Effect-end o s =
      Effect-record config
        (AgentEvent.tool_execution_end o.tool_call_id o.tool_name o.result o.is_error) s

  Effect-ends :
      (os : List (ToolExecutionOutcome H)) (s : LoopState H W)
      → Effect s (record_ends config os s) [] []
  unfolding record_ends
  Effect-ends [] s = Effect-world s s.world
  Effect-ends (o ∷ os) s =
      Effect-trans (Effect-end o s) (Effect-ends os (record_tool_execution_end config o s))

module _ {H : Host} {W S : Type 0} (outside : Outside H W S) (config : AgentLoopConfig H W S) where
  Effect-prepare :
      (assistant : AssistantMessage H) (index : ℕ) (call : ToolCall H) (s : LoopState H W)
      → Effect s (prepare_tool_call outside config assistant index call s).1 [] []
  unfolding prepare_tool_call
  Effect-prepare assistant index call s =
      let e = AgentEvent.tool_execution_start call.id call.name (outside.object call.arguments) in
      Effect-trans (Effect-record config e s) (Effect-world (record_event config e s) _)

  Effect-execute :
      (call : PreparedToolCall H W) (s : LoopState H W)
      → Effect s (execute_prepared_tool_call outside config call s).1 [] []
  unfolding execute_prepared_tool_call
  Effect-execute call s =
      let (partials, answer, w) = call.tool.executor call.tool_call_id call.args s.world in
      Effect-trans (Effect-world s w) (
        Effect-trans (Effect-updates config call partials (record s { world = w }))
          (Effect-world (report_updates config call partials (record s { world = w })) _))

  Effect-in_order :
      (calls : List (PreparedToolCall H W)) (s : LoopState H W)
      → Effect s (execute_in_order outside config calls s).1 [] []
  unfolding execute_in_order
  Effect-in_order [] s = Effect-world s s.world
  Effect-in_order (call ∷ calls) s =
      Effect-trans (Effect-execute call s)
        (Effect-in_order calls (execute_prepared_tool_call outside config call s).1)

  Effect-as_ready :
      (n : ℕ) (calls : List (PreparedToolCall H W)) (s : LoopState H W)
      → Effect s (execute_as_ready outside n config calls s).1 [] []
  unfolding execute_as_ready
  Effect-as_ready zero calls s = Effect-world s s.world
  Effect-as_ready (suc n) [] s = Effect-world s s.world
  Effect-as_ready (suc n) (call ∷ calls) s =
      let (ready, w) = outside.next_ready (call ∷ calls) s.world in
      let (next, pending) = take_out call calls ready in
      Effect-trans (Effect-world s w) (
        Effect-trans (Effect-execute next (record s { world = w })) (
          Effect-as_ready n pending
            (execute_prepared_tool_call outside config next (record s { world = w })).1))

  pub Effect-execute_all :
      (calls : List (PreparedToolCall H W)) (s : LoopState H W)
      → Effect s (execute_tool_calls outside config calls s).1 [] []
  unfolding execute_tool_calls
  Effect-execute_all calls s =
      elim (Bool-cases (is_parallel config.tool_execution && all_parallel calls)) [
        | inl e ↦ rw e (Effect-as_ready (length calls) calls s)
        | inr e ↦ rw e (Effect-in_order calls s)
      ]

  Effect-result :
      (o : ToolExecutionOutcome H) (s : LoopState H W)
      → let (m, t) = record_result outside config o s in
        Effect s t [] (AgentEvent.message_end (AgentMessage.tool_result m) ∷ [])
  unfolding record_result
  Effect-result o s =
      let (now, w) = outside.now_millis s.world in
      Effect-trans (Effect-world s w) (
        Effect-announce config (AgentMessage.tool_result (tool_result_message_from_outcome now o))
          (record s { world = w }))

  Effect-result_push :
      (o : ToolExecutionOutcome H) (s : LoopState H W)
      → let (m, t) = record_result outside config o s in
        Effect s
          (push_message (AgentMessage.tool_result m) t)
          (AgentMessage.tool_result m ∷ [])
          (AgentEvent.message_end (AgentMessage.tool_result m) ∷ [])
  Effect-result_push o s =
      let (m, t) = record_result outside config o s in
      Effect-trans (Effect-result o s) (Effect-push (AgentMessage.tool_result m) t)

  Effect-results :
      (os : List (ToolExecutionOutcome H)) (s : LoopState H W)
      → let (ms, t) = record_results outside config os s in
        Effect s t (as_messages ms) (ends (as_messages ms))
  unfolding record_results
  Effect-results [] s = Effect-world s s.world
  Effect-results (o ∷ os) s =
      let (m, t) = record_result outside config o s in
      Effect-trans (Effect-result_push o s)
        (Effect-results os (push_message (AgentMessage.tool_result m) t))

  Effect-truncated :
      (index : ℕ) (calls : List (ToolCall H)) (s : LoopState H W)
      → let (ms, t) = fail_truncated outside config index calls s in
        Effect s t (as_messages ms) (ends (as_messages ms))
  unfolding fail_truncated
  Effect-truncated index [] s = Effect-world s s.world
  Effect-truncated index (call ∷ calls) s =
      let o =
        error_tool_execution_outcome outside index call.id call.name (was_truncated call.name) in
      let e = AgentEvent.tool_execution_start call.id call.name (outside.object call.arguments) in
      let s1 = record_event config e s in
      let s2 = record_tool_execution_end config o s1 in
      let (m, t) = record_result outside config o s2 in
      Effect-trans (Effect-record config e s) (
        Effect-trans (Effect-end config o s1) (
          Effect-trans (Effect-result_push o s2)
            (Effect-truncated (index + 1) calls (push_message (AgentMessage.tool_result m) t))))

  Effect-sort :
      (r : ToolCallPreparation H W × LoopState H W) → Effect r.1 (sort_prepared config r).1 [] []
  unfolding sort_prepared
  Effect-sort (prepared call, s) = Effect-world s s.world
  Effect-sort (immediate o, s) = Effect-end config o s

  Effect-prepare_all :
      (assistant : AssistantMessage H) (index : ℕ) (calls : List (ToolCall H)) (s : LoopState H W)
      → Effect s (prepare_all outside config assistant index calls s).1 [] []
  unfolding prepare_all
  Effect-prepare_all assistant index [] s = Effect-world s s.world
  Effect-prepare_all assistant index (call ∷ calls) s =
      let r = prepare_tool_call outside config assistant index call s in
      Effect-trans (Effect-prepare assistant index call s) (
        Effect-trans (Effect-sort r)
          (Effect-prepare_all assistant (index + 1) calls (sort_prepared config r).1))

  Effect-parallel :
      (assistant : AssistantMessage H) (calls : List (ToolCall H)) (s : LoopState H W)
      → let ((ms, ends_run), t) = run_parallel outside config assistant calls s in
        Effect s t (as_messages ms) (ends (as_messages ms))
  unfolding run_parallel
  Effect-parallel assistant calls s =
      let ((ready, done), t) = prepare_all outside config assistant 0 calls s in
      let (outcomes, u) = execute_tool_calls outside config ready t in
      Effect-trans (Effect-prepare_all assistant 0 calls s) (
        Effect-trans (Effect-execute_all ready t) (
          Effect-trans (Effect-ends config outcomes u)
            (Effect-results _ (record_ends config outcomes u))))

  Effect-if_prepared :
      (r : ToolCallPreparation H W × LoopState H W)
      → Effect r.1 (execute_if_prepared outside config r).1 [] []
  unfolding execute_if_prepared
  Effect-if_prepared (prepared call, s) = Effect-execute call s
  Effect-if_prepared (immediate o, s) = Effect-world s s.world

  Effect-one_by_one :
      (assistant : AssistantMessage H) (index : ℕ) (calls : List (ToolCall H)) (s : LoopState H W)
      → let ((ms, os), t) = run_one_by_one outside config assistant index calls s in
        Effect s t [] (ends (as_messages ms))
  unfolding run_one_by_one
  Effect-one_by_one assistant index [] s = Effect-world s s.world
  Effect-one_by_one assistant index (call ∷ calls) s =
      let r = prepare_tool_call outside config assistant index call s in
      let (o, t) = execute_if_prepared outside config r in
      let t1 = record_tool_execution_end config o t in
      Effect-trans (Effect-prepare assistant index call s) (
        Effect-trans (Effect-if_prepared r) (
          Effect-trans (Effect-end config o t) (
            Effect-trans (Effect-result o t1) (
              Effect-one_by_one assistant (index + 1) calls
                (record_result outside config o t1).1))))

  Effect-sequential :
      (assistant : AssistantMessage H) (calls : List (ToolCall H)) (s : LoopState H W)
      → let ((ms, ends_run), t) = run_sequential outside config assistant calls s in
        Effect s t (as_messages ms) (ends (as_messages ms))
  unfolding run_sequential
  Effect-sequential assistant calls s =
      let ((ms, os), t) = run_one_by_one outside config assistant 0 calls s in
      subst (Effect s (push_all (as_messages ms) t) (as_messages ms))
        (append-nil (ends (as_messages ms)))
        (Effect-trans (Effect-one_by_one assistant 0 calls s) (Effect-push_all (as_messages ms) t))

  pub Effect-tools :
      (reason : StopReason) (m : AssistantMessage H) (s : LoopState H W)
      → let ((ms, ends_run), t) = run_tools outside config reason m s in
        Effect s t (as_messages ms) (ends (as_messages ms))
  unfolding run_tools
  Effect-tools StopReason.length m s = Effect-truncated 0 (assistant_tool_calls m) s
  Effect-tools StopReason.tool_use m s =
      elim (Bool-cases (use_parallel_tool_execution (assistant_tool_calls m) s.context config)) [
        | inl e ↦ rw e (Effect-parallel m (assistant_tool_calls m) s)
        | inr e ↦ rw e (Effect-sequential m (assistant_tool_calls m) s)
      ]
  Effect-tools StopReason.stop m s = Effect-world s s.world
  Effect-tools StopReason.error m s = Effect-world s s.world
  Effect-tools StopReason.aborted m s = Effect-world s s.world
