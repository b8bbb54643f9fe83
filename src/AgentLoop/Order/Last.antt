-- ===== src/AgentLoop/Order/Last.antt =====
-- A message that failed ends a run: the turns of crates/ri-agent-core/src/agent_loop.rs.
use ri.Base.{ℕ, suc, ◌≡◌, refl, ap, true, subst, List, ◌∷◌, ◌++◌, ltb, if◌then◌else◌}
use ri.Message.{Host, AssistantMessage}
use ri.Agent.Types.{AgentMessage, AgentEvent}
use ri.Agent.Run.{ok}
use ri.AgentLoop.Types.{AgentLoopConfig, LoopState, Outside, TurnOutcome}
use ri.AgentLoop.Record.{record_event, record_injected_messages}
use ri.AgentLoop.Turn.{run_one_turn}
use ri.AgentLoop.Run.{Carried, turn_loop, after_turn, extend}
use ri.AgentLoop.Order.Answers.{Answers, Fails, run_one_turn-Answers}

module _ {H : Host} where
  Fails-terminal :
      (o : TurnOutcome H) (m : AssistantMessage H) (rest : List (AgentMessage H))
      → Answers (ok o)
      → o.messages ≡ AgentMessage.assistant m ∷ rest
      → Fails m.stop_reason
      → o.terminal_assistant ≡ true
  Fails-terminal o m rest (m', same, _, marked) e f =
      let said : m ≡ m' = cc (e, same) in
      marked.1 (subst (λ (x : AssistantMessage H). Fails x.stop_reason) said f)

module _ {H : Host} {W S : Type 0} where
  -- The state in which a turn asks the model.
  abbrev pub at_request :
      AgentLoopConfig H W S → ℕ → List (AgentMessage H) → LoopState H W → LoopState H W
  at_request config turn_index pending s =
      record_injected_messages config pending
        (if ltb 0 turn_index then record_event config AgentEvent.turn_start s else s)

  -- A turn whose message of the assistant stopped by an error or an abort is the last, however many
  -- are left: the run returns the messages before it and those of the turn, in the state in which the
  -- turn ended, so that no hook, no queue and no model is asked after it.
  pub turn_loop_last :
      (outside : Outside H W S) (max_turns left turn_index : ℕ) (c : Carried H W S)
      (pending rest : List (AgentMessage H)) (s t : LoopState H W) (o : TurnOutcome H)
      (m : AssistantMessage H)
      → run_one_turn outside c.active_config (at_request c.active_config turn_index pending s)
        ≡ (ok o, t)
      → o.messages ≡ AgentMessage.assistant m ∷ rest
      → Fails m.stop_reason
      → turn_loop outside max_turns (suc left) turn_index c pending s
        ≡ (ok ((c.all_messages ++ pending) ++ o.messages), t)
  unfolding turn_loop after_turn extend
  turn_loop_last outside max_turns left turn_index c pending rest s t o m turn e f =
      let answers : Answers (ok o) = subst Answers (ap (λ r. r.0) turn) (
        run_one_turn-Answers outside c.active_config
          (at_request c.active_config turn_index pending s)) in
      rw (turn, Fails-terminal o m rest answers e f) refl
