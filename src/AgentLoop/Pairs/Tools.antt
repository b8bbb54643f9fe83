-- ===== src/AgentLoop/Pairs/Tools.antt =====
-- Every tool call that a turn starts it ends, in crates/ri-agent-core/src/agent_loop.rs.
use mathlib.Core.List.{map-append}
use ri.Base.{
  ℕ, zero, suc, ◌+◌, ◌≡◌, refl, sym, ap, ◌∙◌, Bool, true, ◌||◌, ◌&&◌, List, [], ◌∷◌, ◌++◌, Text,
  text_eq, map, length, any, arith, Bool-cases, inl, inr, filter_map,
}
use ri.Base.Lists.{any-append}
use ri.Message.{Host, AssistantMessage, ToolCall, StopReason}
use ri.Agent.Types.{AgentMessage, AgentToolResult}
use ri.AgentLoop.Types.{
  AgentLoopConfig, LoopState, Outside, PreparedToolCall, ToolExecutionOutcome, ToolCallPreparation,
  prepared, immediate,
}
use ri.AgentLoop.Record.{push_message, push_all}
use ri.AgentLoop.Prepare.{prepare_tool_call, error_tool_execution_outcome}
use ri.AgentLoop.Execute.{
  execute_prepared_tool_call, report_updates, execute_in_order, execute_as_ready, take_out,
  execute_tool_calls, record_tool_execution_end, record_ends, record_result, all_parallel,
  is_parallel, execute_tool_calls_in_source_order,
}
use ri.AgentLoop.Turn.{
  fail_truncated, prepare_all, sort_prepared, record_results, run_parallel, run_one_by_one,
  execute_if_prepared, run_sequential, run_tools, assistant_tool_calls, use_parallel_tool_execution,
  was_truncated,
}
use ri.AgentLoop.Order.Slots.{Key, outcome_key}
use ri.AgentLoop.Order.Keys.{
  call_key, preparation_key, prepare_tool_call-key, execute_prepared-key, execute_tool_calls-keys,
}
use ri.AgentLoop.Pairs.{OpenIn, OpenIn-update, OpenIn-start, OpenIn-end, OpenIn-announce}

abbrev named : Text → Key → Bool
named k key = text_eq key.1.0 k

module _ {H : Host} {W S : Type 0} (config : AgentLoopConfig H W S) where
  OpenIn-weaken :
      (p q : Text → Bool) (s : LoopState H W) → ((k : Text) → p k ≡ q k) → OpenIn p s → OpenIn q s
  OpenIn-weaken p q s h o k opened = sym (h k) ∙ o k opened

  OpenIn-updates :
      (p : Text → Bool) (call : PreparedToolCall H W) (rs : List (AgentToolResult H))
      (s : LoopState H W)
      → OpenIn p s
      → OpenIn p (report_updates config call rs s)
  unfolding report_updates
  OpenIn-updates p call [] s o = o
  OpenIn-updates p call (r ∷ rs) s o =
      OpenIn-updates p call rs _
        (OpenIn-update config p call.tool_call_id call.tool_name call.event_args r s o)

  OpenIn-ends :
      (p : Text → Bool) (os : List (ToolExecutionOutcome H)) (s : LoopState H W)
      → OpenIn (λ k. any (named k) (map outcome_key os) || p k) s
      → OpenIn p (record_ends config os s)
  unfolding record_ends record_tool_execution_end
  OpenIn-ends p [] s o = o
  OpenIn-ends p (x ∷ os) s o = OpenIn-ends p os _ (
      OpenIn-end config (λ k. any (named k) (map outcome_key os) || p k) x.tool_call_id x.tool_name
        x.result x.is_error s (λ k opened. ground (arith, o k opened)))

module _ {H : Host} {W S : Type 0} (outside : Outside H W S) (config : AgentLoopConfig H W S) where
  OpenIn-prepare :
      (p : Text → Bool) (assistant : AssistantMessage H) (index : ℕ) (call : ToolCall H)
      (s : LoopState H W)
      → OpenIn p s
      → OpenIn
          (λ k. text_eq call.id k || p k)
          (prepare_tool_call outside config assistant index call s).1
  unfolding prepare_tool_call
  OpenIn-prepare p assistant index call s o =
      OpenIn-start config p call.id call.name (outside.object call.arguments) s o

  OpenIn-execute :
      (p : Text → Bool) (call : PreparedToolCall H W) (s : LoopState H W)
      → OpenIn p s
      → OpenIn p (execute_prepared_tool_call outside config call s).1
  unfolding execute_prepared_tool_call
  OpenIn-execute p call s o =
      let (partials, answer, w) = call.tool.executor call.tool_call_id call.args s.world in
      OpenIn-updates config p call partials (record s { world = w }) o

  OpenIn-in_order :
      (p : Text → Bool) (calls : List (PreparedToolCall H W)) (s : LoopState H W)
      → OpenIn p s
      → OpenIn p (execute_in_order outside config calls s).1
  unfolding execute_in_order
  OpenIn-in_order p [] s o = o
  OpenIn-in_order p (call ∷ calls) s o = OpenIn-in_order p calls _ (OpenIn-execute p call s o)

  OpenIn-as_ready :
      (p : Text → Bool) (n : ℕ) (calls : List (PreparedToolCall H W)) (s : LoopState H W)
      → OpenIn p s
      → OpenIn p (execute_as_ready outside n config calls s).1
  unfolding execute_as_ready
  OpenIn-as_ready p zero calls s o = o
  OpenIn-as_ready p (suc n) [] s o = o
  OpenIn-as_ready p (suc n) (call ∷ calls) s o =
      let (ready, w) = outside.next_ready (call ∷ calls) s.world in
      let (next, rest) = take_out call calls ready in
      OpenIn-as_ready p n rest _ (OpenIn-execute p next (record s { world = w }) o)

  OpenIn-execute_all :
      (p : Text → Bool) (calls : List (PreparedToolCall H W)) (s : LoopState H W)
      → OpenIn p s
      → OpenIn p (execute_tool_calls outside config calls s).1
  unfolding execute_tool_calls
  OpenIn-execute_all p calls s o =
      elim (Bool-cases (is_parallel config.tool_execution && all_parallel calls)) [
        | inl e ↦ rw e (OpenIn-as_ready p (length calls) calls s o)
        | inr e ↦ rw e (OpenIn-in_order p calls s o)
      ]

  OpenIn-result :
      (p : Text → Bool) (x : ToolExecutionOutcome H) (s : LoopState H W)
      → OpenIn p s
      → OpenIn p (record_result outside config x s).1
  unfolding record_result
  OpenIn-result p x s o = OpenIn-announce config p _ (record s { world = _ }) o

  OpenIn-results :
      (p : Text → Bool) (os : List (ToolExecutionOutcome H)) (s : LoopState H W)
      → OpenIn p s
      → OpenIn p (record_results outside config os s).1
  unfolding record_results push_message
  OpenIn-results p [] s o = o
  OpenIn-results p (x ∷ os) s o = OpenIn-results p os _ (OpenIn-result p x s o)

  OpenIn-truncated :
      (p : Text → Bool) (index : ℕ) (calls : List (ToolCall H)) (s : LoopState H W)
      → OpenIn p s
      → OpenIn p (fail_truncated outside config index calls s).1
  unfolding fail_truncated record_tool_execution_end push_message error_tool_execution_outcome
  OpenIn-truncated p index [] s o = o
  OpenIn-truncated p index (call ∷ calls) s o = OpenIn-truncated p (index + 1) calls _ (
      OpenIn-result p
        (error_tool_execution_outcome outside index call.id call.name (was_truncated call.name)) _
        (OpenIn-end config p call.id call.name _ true _
          (OpenIn-start config p call.id call.name (outside.object call.arguments) s o)))

  OpenIn-sort :
      (p : Text → Bool) (r : ToolCallPreparation H W × LoopState H W)
      → OpenIn (λ k. named k (preparation_key r.0) || p k) r.1
      → let ((ready, done), t) = sort_prepared config r in
        OpenIn (λ k. any (named k) (map call_key ready) || p k) t
  unfolding sort_prepared record_tool_execution_end
  OpenIn-sort p (prepared call, s) o = λ k opened. ground (arith, o k opened)
  OpenIn-sort p (immediate x, s) o =
      OpenIn-end config p x.tool_call_id x.tool_name x.result x.is_error s o

  OpenIn-prepare_all :
      (p : Text → Bool) (assistant : AssistantMessage H) (index : ℕ) (calls : List (ToolCall H))
      (s : LoopState H W)
      → OpenIn p s
      → let ((ready, done), t) = prepare_all outside config assistant index calls s in
        OpenIn (λ k. any (named k) (map call_key ready) || p k) t
  unfolding prepare_all
  OpenIn-prepare_all p assistant index [] s o = o
  OpenIn-prepare_all p assistant index (call ∷ calls) s o =
      let r = prepare_tool_call outside config assistant index call s in
      let ((ready, done), t) = sort_prepared config r in
      let ((more, more_done), u) = prepare_all outside config assistant (index + 1) calls t in
      let q : Text → Bool = λ k. any (named k) (map call_key ready) || p k in
      let started : OpenIn (λ k. named k (preparation_key r.0) || p k) r.1 = λ k opened.
        ap (λ (key : Key). named k key || p k)
          (prepare_tool_call-key outside config assistant index call s)
        ∙ OpenIn-prepare p assistant index call s o k opened in
      λ k opened. ground (
        arith,
        OpenIn-prepare_all q assistant (index + 1) calls t (OpenIn-sort p r started) k opened,
        ap (any (named k)) (map-append call_key ready more),
        any-append (named k) (map call_key ready) (map call_key more),
      )

  OpenIn-parallel :
      (p : Text → Bool) (assistant : AssistantMessage H) (calls : List (ToolCall H))
      (s : LoopState H W)
      → OpenIn p s
      → OpenIn p (run_parallel outside config assistant calls s).1
  unfolding run_parallel
  OpenIn-parallel p assistant calls s o =
      let ((ready, done), t) = prepare_all outside config assistant 0 calls s in
      let (outcomes, u) = execute_tool_calls outside config ready t in
      let (same, fits) = execute_tool_calls-keys outside config ready t in
      let q : Text → Bool = λ k. any (named k) (map call_key ready) || p k in
      let at_ends : OpenIn q u =
        OpenIn-execute_all q ready t (OpenIn-prepare_all p assistant 0 calls s o) in
      OpenIn-results p (filter_map (λ x. x) (execute_tool_calls_in_source_order (done ++ outcomes)))
        _
        (OpenIn-ends config p outcomes u
          (λ k opened. ap (λ (b : Bool). b || p k) (same (named k)) ∙ at_ends k opened))

  OpenIn-if_prepared :
      (p : Text → Bool) (r : ToolCallPreparation H W × LoopState H W)
      → OpenIn p r.1
      → OpenIn p (execute_if_prepared outside config r).1
  unfolding execute_if_prepared
  OpenIn-if_prepared p (prepared call, s) o = OpenIn-execute p call s o
  OpenIn-if_prepared p (immediate x, s) o = o

  if_prepared-id :
      (r : ToolCallPreparation H W × LoopState H W)
      → (execute_if_prepared outside config r).0.tool_call_id ≡ (preparation_key r.0).1.0
  unfolding execute_if_prepared
  if_prepared-id (prepared call, s) =
      ap (λ (k : Key). k.1.0) (execute_prepared-key outside config call s)
  if_prepared-id (immediate x, s) = refl

  OpenIn-one_by_one :
      (p : Text → Bool) (assistant : AssistantMessage H) (index : ℕ) (calls : List (ToolCall H))
      (s : LoopState H W)
      → OpenIn p s
      → OpenIn p (run_one_by_one outside config assistant index calls s).1
  unfolding run_one_by_one record_tool_execution_end
  OpenIn-one_by_one p assistant index [] s o = o
  OpenIn-one_by_one p assistant index (call ∷ calls) s o =
      let r = prepare_tool_call outside config assistant index call s in
      let (x, t) = execute_if_prepared outside config r in
      let id : x.tool_call_id ≡ call.id =
        if_prepared-id r
        ∙ ap (λ (k : Key). k.1.0) (prepare_tool_call-key outside config assistant index call s) in
      let running : OpenIn (λ k. text_eq x.tool_call_id k || p k) t = λ k opened.
        ap (λ (i : Text). text_eq i k || p k) id
        ∙ OpenIn-if_prepared (λ k. text_eq call.id k || p k) r
            (OpenIn-prepare p assistant index call s o) k opened in
      OpenIn-one_by_one p assistant (index + 1) calls _ (
        OpenIn-result p x _
          (OpenIn-end config p x.tool_call_id x.tool_name x.result x.is_error t running))

  OpenIn-push_all :
      (p : Text → Bool) (ms : List (AgentMessage H)) (s : LoopState H W)
      → OpenIn p s
      → OpenIn p (push_all ms s)
  unfolding push_all push_message
  OpenIn-push_all p [] s o = o
  OpenIn-push_all p (m ∷ ms) s o = OpenIn-push_all p ms _ o

  pub OpenIn-tools :
      (p : Text → Bool) (reason : StopReason) (m : AssistantMessage H) (s : LoopState H W)
      → OpenIn p s
      → OpenIn p (run_tools outside config reason m s).1
  unfolding run_tools run_sequential
  OpenIn-tools p StopReason.length m s o = OpenIn-truncated p 0 (assistant_tool_calls m) s o
  OpenIn-tools p StopReason.tool_use m s o =
      elim (Bool-cases (use_parallel_tool_execution (assistant_tool_calls m) s.context config)) [
        | inl e ↦ rw e (OpenIn-parallel p m (assistant_tool_calls m) s o)
        | inr e ↦
            rw e (OpenIn-push_all p _ _ (OpenIn-one_by_one p m 0 (assistant_tool_calls m) s o))
      ]
  OpenIn-tools p StopReason.stop m s o = o
  OpenIn-tools p StopReason.error m s o = o
  OpenIn-tools p StopReason.aborted m s o = o
