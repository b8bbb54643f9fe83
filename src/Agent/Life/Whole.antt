-- ===== src/Agent/Life/Whole.antt =====
-- A whole run of an agent of agent.rs: from the prompt, through the events of the loop, to its end.
use ri.Base.{
  ◌≡◌, refl, ap, ◌∙◌, Bool, false, ◌++◌, Option, none, some, List, [], ◌∷◌, Text, arith, last,
  filter_map, latest,
}
use ri.Message.{Host}
use ri.Agent.Types.{AgentMessage, AgentEvent, AgentState}
use ri.Agent.Reduce.{reduce_all, reduce_all_lem, ended, failure}
use ri.Agent.Machine.{Agent, on_event}
use ri.Agent.Run.{
  Outcome, ok, err, Started, LoopCall, run_outcome, prompt_with, run_with_skip, is_busy, finish_run,
}

module _ {H : Host} where
  -- The error that a run leaves: that of the loop where it failed, or else that of the last turn
  -- that ended with one.
  abbrev pub left_error : Outcome (List (AgentMessage H)) → List (AgentEvent H) → Option Text
  left_error (ok ms) es = last (filter_map failure es)
  left_error (err e) es = some e

latest-none : {A : Type 0} (o : Option A) → latest none o ≡ o
latest-none none = refl
latest-none (some a) = refl

module _ {H : Host} {Tool Listener : Type 0} where
  -- The agent after the events, and the calls of the listeners, in order.
  unfoldable pub on_events :
      Agent H Tool Listener → List (AgentEvent H) → Agent H Tool Listener × List (List Listener)
  on_events a [] = (a, [])
  on_events a (e ∷ es) =
      let (b, calls) = on_event a e in let (c, more) = on_events b es in (c, calls ∷ more)

  pub on_events-state :
      (a : Agent H Tool Listener) (es : List (AgentEvent H))
      → ((on_events a es).0.state ≡ reduce_all a.state es)
        × ((on_events a es).0.listeners ≡ a.listeners)
        × ((on_events a es).0.steering_queue ≡ a.steering_queue)
        × ((on_events a es).0.follow_up_queue ≡ a.follow_up_queue)
  unfolding on_events on_event reduce_all
  on_events-state a [] = (refl, refl, refl, refl)
  on_events-state a (e ∷ es) = on_events-state (on_event a e).0 es

  pub begun-fields :
      (a : Agent H Tool Listener) (call : LoopCall H) (skip : Bool) (s : Started H Tool Listener)
      → run_with_skip a call skip ≡ ok s
      → (s.agent.state.messages ≡ a.state.messages)
        × (s.agent.state.error_message ≡ none)
        × (s.agent.steering_queue ≡ a.steering_queue)
        × (s.agent.follow_up_queue ≡ a.follow_up_queue)
  unfolding run_with_skip
  begun-fields a call skip s h = ground arith

  pub prompt_with-begins :
      (a : Agent H Tool Listener) (ms : List (AgentMessage H)) (s : Started H Tool Listener)
      → prompt_with a ms ≡ ok s
      → run_with_skip a (LoopCall.prompt_messages ms) false ≡ ok s
  unfolding prompt_with
  prompt_with-begins a ms s h = ground arith

  pub outcome-fields :
      (a : Agent H Tool Listener) (o : Outcome (List (AgentMessage H)))
      → let b = run_outcome a o in
        (is_busy b ≡ false)
        × (b.state.pending_tool_calls ≡ [])
        × (b.state.streaming_message ≡ none)
        × (b.state.messages ≡ a.state.messages)
        × (b.steering_queue ≡ a.steering_queue)
        × (b.follow_up_queue ≡ a.follow_up_queue)
  unfolding run_outcome finish_run is_busy
  outcome-fields a (ok ms) = (refl, refl, refl, refl, refl, refl)
  outcome-fields a (err e) = (refl, refl, refl, refl, refl, refl)

  outcome-left_error :
      (a : Agent H Tool Listener) (es : List (AgentEvent H)) (o : Outcome (List (AgentMessage H)))
      → a.state.error_message ≡ last (filter_map failure es)
      → (run_outcome a o).state.error_message ≡ left_error o es
  unfolding run_outcome finish_run
  outcome-left_error a es (ok ms) h = h
  outcome-left_error a es (err e) h = refl

  -- When a run that a prompt began has emitted any events and ended, well or not, the agent is free
  -- for the next: not active, not streaming, nothing pending; the messages that ended were added to
  -- the transcript, in order; the error is the loop's, or else that of the last failed turn, and
  -- none where neither failed, whatever it was before.
  pub prompt_with-events :
      (a : Agent H Tool Listener) (ms : List (AgentMessage H)) (s : Started H Tool Listener)
      (b : Agent H Tool Listener) (es : List (AgentEvent H)) (o : Outcome (List (AgentMessage H)))
      → prompt_with a ms ≡ ok s
      → b.state ≡ reduce_all s.agent.state es
      → let c = run_outcome b o in
        (is_busy c ≡ false)
        × (c.state.pending_tool_calls ≡ [])
        × (c.state.streaming_message ≡ none)
        × (c.state.messages ≡ a.state.messages ++ filter_map ended es)
        × (c.state.error_message ≡ left_error o es)
  prompt_with-events a ms s b es o h t =
      let (m, x, q, f) =
        begun-fields a (LoopCall.prompt_messages ms) false s (prompt_with-begins a ms s h) in
      let (i, p, g, m', q', f') = outcome-fields b o in
      (
        i,
        p,
        g,
        m'
            ∙ ap (λ (x : AgentState H Tool). x.messages) t
            ∙ (reduce_all_lem s.agent.state es []).0
            ∙ rw (m) refl,
        outcome-left_error b es o (
            ap (λ (x : AgentState H Tool). x.error_message) t
            ∙ (reduce_all_lem s.agent.state es []).2
            ∙ rw (x) (latest-none (last (filter_map failure es)))),
      )
