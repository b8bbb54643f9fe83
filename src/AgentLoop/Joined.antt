-- ===== src/AgentLoop/Joined.antt =====
-- The agent of crates/ri-agent-core/src/agent.rs with the loop of
-- crates/ri-agent-core/src/agent_loop.rs: a prompt, the call of the loop that it begins, whose events
-- the agent is given by its event sink, and the end of the run.
use ri.Base.{◌≡◌, sym, ap, ◌∙◌, false, List, [], ◌++◌, arith}
use ri.Message.{Host}
use ri.Agent.Types.{AgentMessage}
use ri.Agent.Run.{ok, Started, prompt_with, run_with_skip, run_outcome, is_busy}
use ri.Agent.Machine.{Agent}
use ri.Agent.Life.Whole.{on_events, on_events-state, prompt_with-events}
use ri.AgentLoop.Types.{AgentLoopConfig, LoopState, AgentTool, Outside}
use ri.AgentLoop.Run.{returned}
use ri.AgentLoop.Call.{agent_loop_prompt_messages}
use ri.AgentLoop.Effect.Ran.{KeepsMessages}
use ri.AgentLoop.Effect.Calls.{agent_loop_prompt_messages-whole}

module _ {H : Host} {W Listener : Type 0} where
  begun-context :
      (a : Agent H (AgentTool H W) Listener) (ms : List (AgentMessage H))
      (s : Started H (AgentTool H W) Listener)
      → prompt_with a ms ≡ ok s
      → s.context.messages ≡ a.state.messages
  unfolding prompt_with run_with_skip
  begun-context a ms s h = ground arith

module _ {H : Host} {W S Listener : Type 0} where
  -- A prompt to an agent that is free, the loop on the context that it hands over, and its events
  -- given to the agent: the loop returns messages, the agent is free again with no tool call pending,
  -- and its transcript is that of the loop's context, which is the transcript before and then the
  -- returned messages, where no turn replaces the messages of the context.
  pub prompt_with-loop :
      (outside : Outside H W S) (config : AgentLoopConfig H W S)
      (a : Agent H (AgentTool H W) Listener) (ms : List (AgentMessage H))
      (s : Started H (AgentTool H W) Listener) (w : W)
      → KeepsMessages config.prepare_next_turn
      → prompt_with a ms ≡ ok s
      → (new : List (AgentMessage H)) × (t : LoopState H W) × (agent_loop_prompt_messages outside
            config s.context ms w
          ≡ returned new t)
        × (let b = run_outcome (on_events s.agent t.history).0 (ok new) in
            (is_busy b ≡ false)
            × (b.state.pending_tool_calls ≡ [])
            × (b.state.messages ≡ t.context.messages)
            × (b.state.messages ≡ a.state.messages ++ new))
  prompt_with-loop outside config a ms s w k h =
      let (new, t, e, whole) = agent_loop_prompt_messages-whole outside config s.context ms w k in
      let (free, pending, streaming, messages, error) =
        prompt_with-events a ms s (on_events s.agent t.history).0 t.history (ok new) h
          (on_events-state s.agent t.history).0 in
      let grown : (run_outcome (on_events s.agent t.history).0 (ok new)).state.messages
          ≡ a.state.messages ++ new =
        messages ∙ ap (◌++◌ a.state.messages) whole.ended_new in
      let kept : t.context.messages ≡ a.state.messages ++ new =
        whole.gained ∙ ap (λ (l : List (AgentMessage H)). l ++ new) (begun-context a ms s h) in
      (new, t, e, (free, pending, grown ∙ sym kept, grown))
