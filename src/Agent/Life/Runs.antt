-- ===== src/Agent/Life/Runs.antt =====
-- A whole run of an agent of agent.rs, with what the loop and other calls do to the agent meanwhile.
use mathlib.Core.List.{append_assoc, append-nil}
use ri.Base.{
  ◌≡◌, refl, sym, ap, ◌∙◌, false, ◌++◌, Option, none, some, List, [], ◌∷◌, filter_map,
  filter_map-append,
}
use ri.Message.{Host}
use ri.Agent.Types.{AgentMessage, AgentEvent}
use ri.Agent.Reduce.{reduce_all, ended}
use ri.Agent.Queue.{PendingMessageQueue, enqueue, drain_now, drain_now-split}
use ri.Agent.Machine.{Agent, on_event, steer, follow_up}
use ri.Agent.Run.{Outcome, ok, Started, LoopCall, run_outcome, prompt_with, is_busy}
use ri.Agent.Life.Whole.{
  left_error, begun-fields, prompt_with-begins, outcome-fields, prompt_with-events,
}

-- What happens to an agent during a run: the loop emits an event, or polls a queue, which drains it
-- in the way of its mode, whatever a further provider then answers; another call queues a message.
pub data RunStep (H : Host) : Type 0 where
  emits : AgentEvent H → RunStep H
  polls_steering : RunStep H
  polls_follow_up : RunStep H
  steers : AgentMessage H → RunStep H
  follows_up : AgentMessage H → RunStep H

module _ {H : Host} where
  abbrev pub emitted : RunStep H → Option (AgentEvent H)
  emitted (RunStep.emits e) = some e
  emitted _ = none

  abbrev pub steered : RunStep H → Option (AgentMessage H)
  steered (RunStep.steers m) = some m
  steered _ = none

  abbrev pub followed_up : RunStep H → Option (AgentMessage H)
  followed_up (RunStep.follows_up m) = some m
  followed_up _ = none

-- The agent during a run, and what the loop has polled of its queues.
pub record Running (H : Host) (Tool Listener : Type 0) : Type 0 where
  pub agent : Agent H Tool Listener
  pub steering : List (AgentMessage H)
  pub follow_ups : List (AgentMessage H)

module _ {H : Host} {Tool Listener : Type 0} where
  abbrev on_step : Running H Tool Listener → RunStep H → Running H Tool Listener
  on_step r (RunStep.emits e) = record r { agent = (on_event r.agent e).0 }
  on_step r RunStep.polls_steering = record r {
    agent = record (r.agent) { steering_queue = (drain_now r.agent.steering_queue).1 };
    steering = r.steering ++ (drain_now r.agent.steering_queue).0;
  }
  on_step r RunStep.polls_follow_up = record r {
    agent = record (r.agent) { follow_up_queue = (drain_now r.agent.follow_up_queue).1 };
    follow_ups = r.follow_ups ++ (drain_now r.agent.follow_up_queue).0;
  }
  on_step r (RunStep.steers m) = record r { agent = steer r.agent m }
  on_step r (RunStep.follows_up m) = record r { agent = follow_up r.agent m }

  abbrev on_steps : Running H Tool Listener → List (RunStep H) → Running H Tool Listener
  on_steps r [] = r
  on_steps r (step ∷ steps) = on_steps (on_step r step) steps

  abbrev pub on_run : Agent H Tool Listener → List (RunStep H) → Running H Tool Listener
  on_run a steps = on_steps (record { agent = a; steering = []; follow_ups = [] }) steps

  on_steps-state :
      (r : Running H Tool Listener) (steps : List (RunStep H))
      → (on_steps r steps).agent.state ≡ reduce_all r.agent.state (filter_map emitted steps)
  unfolding on_event reduce_all steer follow_up
  on_steps-state r [] = refl
  on_steps-state r (RunStep.emits e ∷ steps) = on_steps-state (on_step r (RunStep.emits e)) steps
  on_steps-state r (RunStep.polls_steering ∷ steps) =
      on_steps-state (on_step r RunStep.polls_steering) steps
  on_steps-state r (RunStep.polls_follow_up ∷ steps) =
      on_steps-state (on_step r RunStep.polls_follow_up) steps
  on_steps-state r (RunStep.steers m ∷ steps) = on_steps-state (on_step r (RunStep.steers m)) steps
  on_steps-state r (RunStep.follows_up m ∷ steps) =
      on_steps-state (on_step r (RunStep.follows_up m)) steps

  -- The messages of the one queue that were polled and those that still wait.
  abbrev all_steering : Running H Tool Listener → List (AgentMessage H)
  all_steering r = r.steering ++ r.agent.steering_queue.messages

  abbrev all_follow_ups : Running H Tool Listener → List (AgentMessage H)
  all_follow_ups r = r.follow_ups ++ r.agent.follow_up_queue.messages

  on_step-steering :
      (r : Running H Tool Listener) (step : RunStep H)
      → all_steering (on_step r step) ≡ all_steering r ++ filter_map steered (step ∷ [])
  unfolding on_event steer follow_up enqueue
  on_step-steering r (RunStep.emits e) = sym (append-nil (all_steering r))
  on_step-steering r RunStep.polls_steering =
      append_assoc r.steering (drain_now r.agent.steering_queue).0
        (drain_now r.agent.steering_queue).1.messages
      ∙ ap (◌++◌ r.steering) (drain_now-split r.agent.steering_queue)
      ∙ sym (append-nil (all_steering r))
  on_step-steering r RunStep.polls_follow_up = sym (append-nil (all_steering r))
  on_step-steering r (RunStep.steers m) =
      sym (append_assoc r.steering r.agent.steering_queue.messages (m ∷ []))
  on_step-steering r (RunStep.follows_up m) = sym (append-nil (all_steering r))

  on_step-follow_ups :
      (r : Running H Tool Listener) (step : RunStep H)
      → all_follow_ups (on_step r step) ≡ all_follow_ups r ++ filter_map followed_up (step ∷ [])
  unfolding on_event steer follow_up enqueue
  on_step-follow_ups r (RunStep.emits e) = sym (append-nil (all_follow_ups r))
  on_step-follow_ups r RunStep.polls_steering = sym (append-nil (all_follow_ups r))
  on_step-follow_ups r RunStep.polls_follow_up =
      append_assoc r.follow_ups (drain_now r.agent.follow_up_queue).0
        (drain_now r.agent.follow_up_queue).1.messages
      ∙ ap (◌++◌ r.follow_ups) (drain_now-split r.agent.follow_up_queue)
      ∙ sym (append-nil (all_follow_ups r))
  on_step-follow_ups r (RunStep.steers m) = sym (append-nil (all_follow_ups r))
  on_step-follow_ups r (RunStep.follows_up m) =
      sym (append_assoc r.follow_ups r.agent.follow_up_queue.messages (m ∷ []))

  on_steps-steering :
      (r : Running H Tool Listener) (steps : List (RunStep H))
      → all_steering (on_steps r steps) ≡ all_steering r ++ filter_map steered steps
  on_steps-steering r [] = sym (append-nil (all_steering r))
  on_steps-steering r (step ∷ steps) =
      on_steps-steering (on_step r step) steps
      ∙ ap (λ l. l ++ filter_map steered steps) (on_step-steering r step)
      ∙ append_assoc (all_steering r) (filter_map steered (step ∷ [])) (filter_map steered steps)
      ∙ ap (◌++◌ (all_steering r)) (sym (filter_map-append steered (step ∷ []) steps))

  on_steps-follow_ups :
      (r : Running H Tool Listener) (steps : List (RunStep H))
      → all_follow_ups (on_steps r steps) ≡ all_follow_ups r ++ filter_map followed_up steps
  on_steps-follow_ups r [] = sym (append-nil (all_follow_ups r))
  on_steps-follow_ups r (step ∷ steps) =
      on_steps-follow_ups (on_step r step) steps
      ∙ ap (λ l. l ++ filter_map followed_up steps) (on_step-follow_ups r step)
      ∙ append_assoc (all_follow_ups r) (filter_map followed_up (step ∷ []))
          (filter_map followed_up steps)
      ∙ ap (◌++◌ (all_follow_ups r)) (sym (filter_map-append followed_up (step ∷ []) steps))

  -- A run that a prompt began, in which the loop emits events and polls the queues while messages are
  -- queued, in any order, and that then ends, well or not. The agent is free for the next: not active,
  -- not streaming, nothing pending; the messages that ended were added to the transcript, in order;
  -- the error is the loop's, or else that of the last failed turn, and none where neither failed,
  -- whatever it was before. Of each queue, the messages that the loop polled and then those that
  -- still wait are those that waited before the run and then those that were queued during it.
  pub prompt_with-run :
      (a : Agent H Tool Listener) (ms : List (AgentMessage H)) (s : Started H Tool Listener)
      (steps : List (RunStep H)) (o : Outcome (List (AgentMessage H)))
      → prompt_with a ms ≡ ok s
      → let r = on_run s.agent steps in
        let b = run_outcome r.agent o in
        let es = filter_map emitted steps in
        (is_busy b ≡ false)
        × (b.state.pending_tool_calls ≡ [])
        × (b.state.streaming_message ≡ none)
        × (b.state.messages ≡ a.state.messages ++ filter_map ended es)
        × (b.state.error_message ≡ left_error o es)
        × (r.steering ++ b.steering_queue.messages
            ≡ a.steering_queue.messages ++ filter_map steered steps)
        × (r.follow_ups ++ b.follow_up_queue.messages
            ≡ a.follow_up_queue.messages ++ filter_map followed_up steps)
  prompt_with-run a ms s steps o h =
      let start : Running H Tool Listener = record {
        agent = s.agent;
        steering = [];
        follow_ups = [];
      } in
      let r = on_steps start steps in
      let (m, x, q, f) =
        begun-fields a (LoopCall.prompt_messages ms) false s (prompt_with-begins a ms s h) in
      let (i, p, g, m', q', f') = outcome-fields r.agent o in
      let (free, pending, streaming, messages, error) =
        prompt_with-events a ms s r.agent (filter_map emitted steps) o h
          (on_steps-state start steps) in
      (
        free,
        pending,
        streaming,
        messages,
        error,
        ap (λ (y : PendingMessageQueue (AgentMessage H)). r.steering ++ y.messages) q'
            ∙ on_steps-steering start steps
            ∙ ap
                (λ (y : PendingMessageQueue (AgentMessage H)).
                  y.messages ++ filter_map steered steps)
                q,
        ap (λ (y : PendingMessageQueue (AgentMessage H)). r.follow_ups ++ y.messages) f'
            ∙ on_steps-follow_ups start steps
            ∙ ap
                (λ (y : PendingMessageQueue (AgentMessage H)).
                  y.messages ++ filter_map followed_up steps)
                f,
      )
