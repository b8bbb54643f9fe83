-- ===== src/AgentLoop/Order/Answers.antt =====
-- The tool results of a turn answer the tool calls of its message, in their order: `run_one_turn` of
-- crates/ri-agent-core/src/agent_loop.rs.
use ri.Base.{
  ◌==◌, ℕ, ◌+◌, ◌≡◌, refl, ap, ◌∙◌, Bool, true, false, ◌↔◌, ◌⊎◌, none, List, [], ◌∷◌, ◌++◌, Text,
  map, length, get_elem?, arith, filter_map, Bool-cases, inl, inr,
}
use ri.Message.{Host, AssistantMessage, ToolCall, ToolResultMessage, StopReason}
use ri.Agent.Types.{AgentMessage}
use ri.Agent.Run.{Outcome, ok, err}
use ri.AgentLoop.Types.{
  AgentLoopConfig, LoopState, Outside, TurnOutcome, ToolExecutionOutcome, ToolCallPreparation,
  prepared, immediate, AssistantMessageEventStream,
}
use ri.AgentLoop.Record.{push_message}
use ri.AgentLoop.Prepare.{prepare_tool_call, error_tool_execution_outcome}
use ri.AgentLoop.Execute.{
  execute_tool_calls, execute_tool_calls_in_source_order, record_result, record_ends,
  record_tool_execution_end, tool_result_message_from_outcome,
}
use ri.AgentLoop.Turn.{
  assistant_tool_calls, fail_truncated, prepare_all, record_results, run_parallel,
  execute_if_prepared, run_one_by_one, run_sequential, run_tools, use_parallel_tool_execution,
  respond, read_response, read_stream, run_one_turn, is_terminal, request, final_message,
}
use ri.AgentLoop.Order.Slots.{
  Key, outcome_key, outcome_name, execute_tool_calls_in_source_order_lem,
}
use ri.AgentLoop.Order.Keys.{
  asked, preparation_key, prepare_tool_call-key, execute_prepared-key, execute_tool_calls-keys,
  prepare_all-keys, has-map-append, All-map-append,
}

length-map {ℓ κ} :
    {A : Type ℓ} {B : Type κ} (f : A → B) (xs : List A) → length (map f xs) ≡ length xs
length-map f [] = refl
length-map f (x ∷ xs) = omega (arith, length-map f xs)

-- A message of the assistant that stopped so has failed.
abbrev pub Fails : StopReason → Type 0
Fails reason = (reason ≡ StopReason.error) ⊎ (reason ≡ StopReason.aborted)

is_terminal-Fails : (reason : StopReason) → (is_terminal reason ≡ true) ↔ Fails reason
unfolding is_terminal
is_terminal-Fails StopReason.error = (λ h. inl refl, λ h. refl)
is_terminal-Fails StopReason.aborted = (λ h. inr refl, λ h. refl)
is_terminal-Fails StopReason.stop = (λ h. cc h, λ h. elim h [ inl e ↦ cc e | inr e ↦ cc e ])
is_terminal-Fails StopReason.length = (λ h. cc h, λ h. elim h [ inl e ↦ cc e | inr e ↦ cc e ])
is_terminal-Fails StopReason.tool_use = (λ h. cc h, λ h. elim h [ inl e ↦ cc e | inr e ↦ cc e ])

module _ {H : Host} where
  -- The call that a result answers.
  abbrev pub answered : ToolResultMessage H → Text × Text
  answered m = (m.tool_call_id, m.tool_name)

  -- The calls that a message has answered: those of one that stopped for them or at the token limit.
  abbrev pub to_answer : StopReason → List (ToolCall H) → List (ToolCall H)
  to_answer StopReason.tool_use calls = calls
  to_answer StopReason.length calls = calls
  to_answer _ calls = []

  -- What a turn comes to: an error, or a message of the assistant with its results.
  abbrev pub Answers : Outcome (TurnOutcome H) → Type 0
  Answers (err e) = Unit
  Answers (ok o) =
      (m : AssistantMessage H) × (o.messages
        ≡ AgentMessage.assistant m ∷ map AgentMessage.tool_result o.tool_results)
      × (map answered o.tool_results ≡ map asked (to_answer m.stop_reason (assistant_tool_calls m)))
      × ((o.terminal_assistant ≡ true) ↔ Fails m.stop_reason)

module _ {H : Host} {W S : Type 0} (outside : Outside H W S) (config : AgentLoopConfig H W S) where
  record_result-name :
      (o : ToolExecutionOutcome H) (s : LoopState H W)
      → answered (record_result outside config o s).0 ≡ outcome_name o
  unfolding record_result tool_result_message_from_outcome
  record_result-name o s = refl

  record_results-names :
      (os : List (ToolExecutionOutcome H)) (s : LoopState H W)
      → map answered (record_results outside config os s).0 ≡ map outcome_name os
  unfolding record_results
  record_results-names [] s = refl
  record_results-names (o ∷ os) s =
      let (m, t) = record_result outside config o s in
      ground (
        arith,
        record_result-name o s,
        record_results-names os (push_message (AgentMessage.tool_result m) t),
      )

  run_parallel-answers :
      (assistant : AssistantMessage H) (calls : List (ToolCall H)) (s : LoopState H W)
      → map answered (run_parallel outside config assistant calls s).0.0 ≡ map asked calls
  unfolding run_parallel
  run_parallel-answers assistant calls s =
      let names = map asked calls in
      let ((ready, done), t) = prepare_all outside config assistant 0 calls s in
      let (outcomes, u) = execute_tool_calls outside config ready t in
      let ((f, g), covers) =
        prepare_all-keys outside config names assistant 0 calls s
          (λ i. ap (get_elem? names) (omega arith)) in
      let (same, fits) = execute_tool_calls-keys outside config ready t in
      record_results-names
        (filter_map (λ o. o) (execute_tool_calls_in_source_order (done ++ outcomes)))
        (record_ends config outcomes u)
      ∙ execute_tool_calls_in_source_order_lem names (done ++ outcomes)
          (All-map-append outcome_key names done outcomes g (fits names f))
          (λ j lt. ground (
            arith,
            has-map-append outcome_key j done outcomes,
            same (λ k. k.0 == j),
            covers j (omega arith) (omega (arith, length-map asked calls)),
          ))

  if_prepared-key :
      (r : ToolCallPreparation H W × LoopState H W)
      → outcome_key (execute_if_prepared outside config r).0 ≡ preparation_key r.0
  unfolding execute_if_prepared
  if_prepared-key (prepared call, s) = execute_prepared-key outside config call s
  if_prepared-key (immediate o, s) = refl

  run_one_by_one-answers :
      (assistant : AssistantMessage H) (index : ℕ) (calls : List (ToolCall H)) (s : LoopState H W)
      → map answered (run_one_by_one outside config assistant index calls s).0.0 ≡ map asked calls
  unfolding run_one_by_one
  run_one_by_one-answers assistant index [] s = refl
  run_one_by_one-answers assistant index (call ∷ calls) s =
      let r = prepare_tool_call outside config assistant index call s in
      let (o, t) = execute_if_prepared outside config r in
      let t1 = record_tool_execution_end config o t in
      let first : answered (record_result outside config o t1).0 ≡ asked call =
        record_result-name o t1
        ∙ ap (λ (k : Key). k.1)
            (if_prepared-key r ∙ prepare_tool_call-key outside config assistant index call s) in
      ground (
        arith,
        first,
        run_one_by_one-answers assistant (index + 1) calls (record_result outside config o t1).1,
      )

  fail_truncated-answers :
      (index : ℕ) (calls : List (ToolCall H)) (s : LoopState H W)
      → map answered (fail_truncated outside config index calls s).0 ≡ map asked calls
  unfolding fail_truncated record_result tool_result_message_from_outcome
      error_tool_execution_outcome
  fail_truncated-answers index [] s = refl
  fail_truncated-answers index (call ∷ calls) s =
      ap (◌∷◌ (asked call)) (fail_truncated-answers (index + 1) calls _)

  run_tools-answers :
      (reason : StopReason) (m : AssistantMessage H) (s : LoopState H W)
      → map answered (run_tools outside config reason m s).0.0
        ≡ map asked (to_answer reason (assistant_tool_calls m))
  unfolding run_tools run_sequential
  run_tools-answers StopReason.length m s = fail_truncated-answers 0 (assistant_tool_calls m) s
  run_tools-answers StopReason.tool_use m s =
      elim (Bool-cases (use_parallel_tool_execution (assistant_tool_calls m) s.context config)) [
        | inl e ↦ rw e (run_parallel-answers m (assistant_tool_calls m) s)
        | inr e ↦ rw e (run_one_by_one-answers m 0 (assistant_tool_calls m) s)
      ]
  run_tools-answers StopReason.stop m s = refl
  run_tools-answers StopReason.error m s = refl
  run_tools-answers StopReason.aborted m s = refl

  respond-Answers :
      (started : Bool) (answer : Outcome (AssistantMessage H)) (s : LoopState H W)
      → Answers (respond outside config started answer s).0
  unfolding respond
  respond-Answers started (err e) s = tt
  respond-Answers started (ok m) s =
      (m, refl, run_tools-answers m.stop_reason m _, is_terminal-Fails m.stop_reason)

  read_response-Answers :
      (stream : Outcome (AssistantMessageEventStream H)) (s : LoopState H W)
      → Answers (read_response outside config stream s).0
  unfolding read_response
  read_response-Answers (err e) s = tt
  read_response-Answers (ok stream) s =
      let ((final, started), t) = read_stream config stream.events ((none, false), s) in
      respond-Answers started (final_message final stream.try_result) t

  -- A turn that does not fail gives one message of the assistant and then one result for each tool
  -- call that it stopped for, or that the token limit may have cut: in the order of the calls, under
  -- their ids and names, whether the tools run at once or one by one, in whatever order they end,
  -- and whether they succeed, fail, are not found, are refused, blocked or aborted. After any other
  -- stop there are no results. The outcome is marked as terminal exactly where the message stopped by
  -- an error or an abort.
  pub run_one_turn-Answers : (s : LoopState H W) → Answers (run_one_turn outside config s).0
  unfolding run_one_turn
  run_one_turn-Answers s =
      let (stream, w) = request outside config s.context s.world in
      read_response-Answers stream (record s { world = w })
