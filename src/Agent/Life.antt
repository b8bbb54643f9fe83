-- ===== src/Agent/Life.antt =====
-- The life of an agent of agent.rs, as steps: its methods, the events that a run emits and the end
-- of a run. Code that holds the guard of `state_mut` can write any state, which is no step.
pub mod Idle
pub mod Whole
pub mod Runs
pub mod Continue
use ri.Base.{◌≡◌, refl, ℕ, Bool, true, false, not, ◌||◌, Option, none, some, List, [], ◌∷◌, Text}
use ri.Base.Int.{ℤ}
use ri.Message.{Host, ImageContent}
use ri.Agent.Types.{AgentMessage, AgentEvent, QueueMode}
use ri.Agent.Queue.{Answer}
use ri.Agent.Machine.{
  Agent, AgentOptions, new_agent, set_steering_mode, set_follow_up_mode, set_session_id, steer,
  follow_up, clear_steering_queue, clear_follow_up_queue, clear_all_queues, reset, abort, subscribe,
  unsubscribe, on_event,
}
use ri.Agent.Run.{
  Outcome, ok, err, Started, run_outcome, prompt_text, prompt_with, prompt_with_images,
  continue_run, poll_steering, poll_follow_up,
}

module _ {H : Host} {Tool Listener : Type 0} where
  -- The agent when a run has begun, or `a` where the call was refused.
  abbrev pub begun :
      Agent H Tool Listener → Outcome (Started H Tool Listener) → Agent H Tool Listener
  begun a (ok s) = s.agent
  begun a (err e) = a

  pub data Step (a : Agent H Tool Listener) : Agent H Tool Listener → Type 0 where
    prompts : (p : Text) → Step a (begun a (prompt_text a p))
    prompts_with : (ms : List (AgentMessage H)) → Step a (begun a (prompt_with a ms))
    prompts_with_images :
        (now : ℤ) (p : Text) (images : List ImageContent)
        → Step a (begun a (prompt_with_images now a p images))
    continues : Step a (begun (continue_run a).0 (continue_run a).1)
    emits : a.active_run ≡ true → (e : AgentEvent H) → Step a (on_event a e).0
    polls_steering :
        a.active_run ≡ true
        → (extra : Option (Answer (AgentMessage H))) → Step a (poll_steering a extra).1
    polls_follow_up :
        a.active_run ≡ true
        → (extra : Option (Answer (AgentMessage H))) → Step a (poll_follow_up a extra).1
    ends : a.active_run ≡ true → (o : Outcome (List (AgentMessage H))) → Step a (run_outcome a o)
    steers : (m : AgentMessage H) → Step a (steer a m)
    follows_up : (m : AgentMessage H) → Step a (follow_up a m)
    clears_steering : Step a (clear_steering_queue a)
    clears_follow_up : Step a (clear_follow_up_queue a)
    clears_all : Step a (clear_all_queues a)
    resets : Step a (reset a)
    aborts : Step a (abort a)
    sets_steering : (mode : QueueMode) → Step a (set_steering_mode a mode)
    sets_follow_up : (mode : QueueMode) → Step a (set_follow_up_mode a mode)
    sets_session : (id : Option Text) → Step a (set_session_id a id)
    subscribes : (l : Listener) → Step a (subscribe a l).1
    unsubscribes : (n : ℕ) → Step a (unsubscribe a n)

  pub data Reachable : Agent H Tool Listener → Type 0 where
    created : (o : AgentOptions H Tool) → Reachable (new_agent Listener o)
    steps : {a b : Agent H Tool Listener} → Reachable a → Step a b → Reachable b
