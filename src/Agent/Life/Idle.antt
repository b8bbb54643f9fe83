-- ===== src/Agent/Life/Idle.antt =====
-- Between runs an agent of agent.rs is idle, and in a run it refuses another.
use ri.Base.{◌≡◌, refl, Bool, true, false, none, List, [], ◌∷◌, Text, arith}
use ri.Base.Int.{ℤ}
use ri.Message.{Host, ImageContent}
use ri.Agent.Types.{AgentMessage, initial_state}
use ri.Agent.Queue.{drain_now, PendingMessageQueue}
use ri.Agent.Machine.{
  Agent, new_agent, set_steering_mode, set_follow_up_mode, set_session_id, steer, follow_up,
  clear_steering_queue, clear_follow_up_queue, clear_all_queues, reset, abort, subscribe,
  unsubscribe, on_event,
}
use ri.Agent.Run.{
  ok, err, Started, LoopCall, run_outcome, prompt_text, prompt_with, prompt_with_images,
  continue_run, poll_steering, poll_follow_up, run_with_skip, is_busy, finish_run, busy_prompt,
  busy_continue, already_streaming, from_steering, from_follow_up,
}
use ri.Agent.Life.{Step, Reachable, begun}

module _ {H : Host} {Tool Listener : Type 0} where
  -- No run is active, and none has left a trace in the state.
  pub IsIdle : Agent H Tool Listener → Type 0
  IsIdle a =
      (a.state.is_streaming ≡ false)
      × (a.state.streaming_message ≡ none)
      × (a.state.pending_tool_calls ≡ [])

  -- An agent with no active run is idle.
  Settles : Agent H Tool Listener → Type 0
  Settles a = a.active_run ≡ false → IsIdle a

  begins-Settles :
      (a : Agent H Tool Listener) (call : LoopCall H) (skip : Bool)
      → Settles a
      → Settles (begun a (run_with_skip a call skip))
  unfolding Settles run_with_skip
  begins-Settles a call skip h = ground arith

  prompts-Settles :
      (a : Agent H Tool Listener) (ms : List (AgentMessage H))
      → Settles a
      → Settles (begun a (prompt_with a ms))
  unfolding prompt_with
  prompts-Settles a ms h = ground (arith, begins-Settles a (LoopCall.prompt_messages ms) false)

  prompts_text-Settles :
      (a : Agent H Tool Listener) (p : Text) → Settles a → Settles (begun a (prompt_text a p))
  unfolding prompt_text
  prompts_text-Settles a p h = ground (arith, begins-Settles a (LoopCall.prompt p) false)

  from_steering-Settles :
      (a : Agent H Tool Listener) (q : List (AgentMessage H) × PendingMessageQueue (AgentMessage H))
      → Settles a
      → Settles (begun (from_steering a q).0 (from_steering a q).1)
  unfolding from_steering from_follow_up prompt_with Settles IsIdle
  from_steering-Settles a (m ∷ ms, rest) h =
      begins-Settles (record a { steering_queue = rest }) (LoopCall.prompt_messages (m ∷ ms)) true h
  from_steering-Settles a ([], rest) h = next (drain_now a.follow_up_queue)
    where
      next :
          (q : List (AgentMessage H) × PendingMessageQueue (AgentMessage H))
          → let r = from_follow_up (record a { steering_queue = rest }) q in Settles (begun r.0 r.1)
      next ([], rest2) = h
      next (m ∷ ms, rest2) =
          prompts-Settles (record a { steering_queue = rest; follow_up_queue = rest2 }) (m ∷ ms) h

  continues-Settles :
      (a : Agent H Tool Listener)
      → Settles a
      → Settles (begun (continue_run a).0 (continue_run a).1)
  unfolding continue_run
  continues-Settles a h = ground (
    arith,
    from_steering-Settles a (drain_now a.steering_queue),
    begins-Settles a LoopCall.continue false,
  )

  Step-Settles : {a b : Agent H Tool Listener} → Step a b → Settles a → Settles b
  unfolding Settles IsIdle on_event poll_steering poll_follow_up run_outcome finish_run steer
      follow_up clear_steering_queue clear_follow_up_queue clear_all_queues reset abort
      set_steering_mode set_follow_up_mode set_session_id subscribe unsubscribe prompt_with_images
  Step-Settles {a = a} (Step.prompts p) h = prompts_text-Settles a p h
  Step-Settles {a = a} (Step.prompts_with ms) h = prompts-Settles a ms h
  Step-Settles {a = a} (Step.prompts_with_images now p []) h = prompts_text-Settles a p h
  Step-Settles {a = a} (Step.prompts_with_images now p (i ∷ is)) h = prompts-Settles a _ h
  Step-Settles {a = a} Step.continues h = continues-Settles a h
  Step-Settles (Step.emits r e) h = λ q. absurd (ground arith)
  Step-Settles (Step.polls_steering r extra) h = h
  Step-Settles (Step.polls_follow_up r extra) h = h
  Step-Settles (Step.ends r (ok ms)) h = λ q. (refl, refl, refl)
  Step-Settles (Step.ends r (err e)) h = λ q. (refl, refl, refl)
  Step-Settles (Step.steers m) h = h
  Step-Settles (Step.follows_up m) h = h
  Step-Settles Step.clears_steering h = h
  Step-Settles Step.clears_follow_up h = h
  Step-Settles Step.clears_all h = h
  Step-Settles Step.resets h = λ q. (refl, refl, refl)
  Step-Settles Step.aborts h = h
  Step-Settles (Step.sets_steering mode) h = h
  Step-Settles (Step.sets_follow_up mode) h = h
  Step-Settles (Step.sets_session id) h = h
  Step-Settles (Step.subscribes l) h = h
  Step-Settles (Step.unsubscribes n) h = h

  Reachable-Settles : {a : Agent H Tool Listener} → Reachable a → Settles a
  unfolding Settles IsIdle new_agent initial_state
  Reachable-Settles (Reachable.created o) = λ q. (refl, refl, refl)
  Reachable-Settles (Reachable.steps r s) = Step-Settles s (Reachable-Settles r)

  -- A reachable agent with no active run is not streaming, has no message in the stream and no tool
  -- call pending, and is not busy: a prompt begins a run, with the transcript and the tools as the
  -- context, in which the agent is active and streaming, with no error and the abort flag cleared.
  pub Reachable-IsIdle :
      {a : Agent H Tool Listener} (r : Reachable a) (ms : List (AgentMessage H))
      → a.active_run ≡ false
      → IsIdle a
        × (is_busy a ≡ false)
        × ((s : Started H Tool Listener) × (prompt_with a ms ≡ ok s)
            × (s.context.messages ≡ a.state.messages)
            × (s.context.tools ≡ a.state.tools)
            × (s.agent.active_run ≡ true)
            × (s.agent.state.is_streaming ≡ true)
            × (s.agent.state.error_message ≡ none)
            × (s.agent.abort_flag ≡ false))
  unfolding IsIdle Settles is_busy prompt_with run_with_skip
  Reachable-IsIdle {a = a} r ms h =
      let idle = Reachable-Settles r h in
      (idle, rw (h, idle.0) refl, rw (h, idle.0) (_, refl, refl, refl, refl, refl, refl, refl))

  -- While a run is active every call that would begin another is refused with its own message, and
  -- `continue_run` leaves the agent and its queues as they are.
  busy_refuses :
      (a : Agent H Tool Listener) (now : ℤ) (p : Text) (images : List ImageContent)
      (ms : List (AgentMessage H)) (call : LoopCall H) (skip : Bool)
      → a.active_run ≡ true
      → (prompt_text a p ≡ err busy_prompt)
        × (prompt_with a ms ≡ err busy_prompt)
        × (prompt_with_images now a p images ≡ err busy_prompt)
        × (continue_run a ≡ (a, err busy_continue))
        × (run_with_skip a call skip ≡ err already_streaming)
  unfolding is_busy prompt_text prompt_with prompt_with_images continue_run run_with_skip
  busy_refuses a now p images ms call skip h =
      (ground arith, ground arith, ground arith, ground arith, ground arith)
