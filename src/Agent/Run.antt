-- ===== src/Agent/Run.antt =====
-- The runs of `Agent` in crates/ri-agent-core/src/agent.rs. A run is split where the agent waits
-- for the loop: `run_with_skip` gives what the loop is called with, and `run_outcome` is what its
-- outcome does to the agent.
use ri.Base.{
  Bool, true, false, ◌||◌, Option, none, some, List, [], ◌∷◌, Text, codes, is_empty, last, map,
  if◌then◌else◌,
}
use ri.Base.Int.{ℤ}
use ri.Message.{Host, Message, UserContent, UserContentValue, ImageContent}
use ri.Agent.Types.{Model, ThinkingLevel, off, AgentMessage, from_message}
use ri.Agent.Queue.{PendingMessageQueue, drain_now, Answer, get_queued_messages}
use ri.Agent.Machine.{Agent}

pub data Outcome {ℓ} (A : Type ℓ) : Type ℓ where
  ok : A → Outcome A
  err : Text → Outcome A

-- What the loop is called with.
pub data LoopCall (H : Host) : Type 0 where
  prompt : Text → LoopCall H
  prompt_messages : List (AgentMessage H) → LoopCall H
  continue : LoopCall H

pub record AgentContext (H : Host) (Tool : Type 0) : Type 0 where
  pub system_prompt : Text
  pub messages : List (AgentMessage H)
  pub tools : List Tool

-- A run that has begun: the agent, and the arguments and the options of the loop.
pub record Started (H : Host) (Tool Listener : Type 0) : Type 0 where
  pub agent : Agent H Tool Listener
  pub call : LoopCall H
  pub context : AgentContext H Tool
  pub model : Model H
  pub reasoning : Option ThinkingLevel
  pub skip_initial_queued_message_poll : Bool

-- `(level != Off).then_some(level)`.
abbrev pub unless_off : ThinkingLevel → Option ThinkingLevel
unless_off off = none
unless_off level = some level

abbrev pub busy_prompt : Text
busy_prompt =
    codes
      "Agent is already processing a prompt. Use steer() or followUp() to queue messages, or wait for completion."

abbrev pub busy_continue : Text
busy_continue = codes "Agent is already processing. Wait for completion before continuing."

abbrev pub already_streaming : Text
already_streaming = codes "Agent is already streaming"

abbrev pub no_messages : Text
no_messages = codes "No messages to continue from"

abbrev pub assistant_last : Text
assistant_last = codes "Cannot continue from message role: assistant"

unfoldable pub is_assistant : {H : Host} → Option (AgentMessage H) → Bool
is_assistant (some (AgentMessage.assistant m)) = true
is_assistant _ = false

module _ {H : Host} {Tool Listener : Type 0} where
  unfoldable pub is_busy : Agent H Tool Listener → Bool
  is_busy a = a.active_run || a.state.is_streaming

  -- The beginning of `run_with_skip`, up to the call of the loop.
  unfoldable pub run_with_skip :
      Agent H Tool Listener → LoopCall H → Bool → Outcome (Started H Tool Listener)
  run_with_skip a call skip =
      if a.state.is_streaming || a.active_run
      then err already_streaming
      else ok (record {
        agent = record a {
          state = record (a.state) { is_streaming = true; error_message = none };
          active_run = true;
          abort_flag = false;
        };
        call = call;
        context = record {
          system_prompt = a.state.system_prompt;
          messages = a.state.messages;
          tools = a.state.tools;
        };
        model = a.state.model;
        reasoning = unless_off a.state.thinking_level;
        skip_initial_queued_message_poll = skip;
      })

  unfoldable pub finish_run : Agent H Tool Listener → Agent H Tool Listener
  finish_run a = record a {
    state = record (a.state) {
      is_streaming = false;
      streaming_message = none;
      pending_tool_calls = [];
    };
    active_run = false;
  }

  -- The end of `run_with_skip`, with the outcome of the loop.
  unfoldable pub run_outcome :
      {A : Type 0} → Agent H Tool Listener → Outcome A → Agent H Tool Listener
  unfolding finish_run
  run_outcome a (ok messages) = finish_run a
  run_outcome a (err e) =
      finish_run (record a { state = record (a.state) { error_message = some e } })

  unfoldable pub prompt_text : Agent H Tool Listener → Text → Outcome (Started H Tool Listener)
  prompt_text a p = if is_busy a then err busy_prompt else run_with_skip a (prompt p) false

  unfoldable pub prompt_with :
      Agent H Tool Listener → List (AgentMessage H) → Outcome (Started H Tool Listener)
  prompt_with a ms =
      if is_busy a then err busy_prompt else run_with_skip a (prompt_messages ms) false

  unfoldable pub prompt_with_images :
      ℤ → Agent H Tool Listener → Text → List ImageContent → Outcome (Started H Tool Listener)
  unfolding prompt_text prompt_with
  prompt_with_images now a p images =
      if is_empty images
      then prompt_text a p
      else prompt_with a (
          from_message (
            Message.user (record {
              content = UserContentValue.blocks (
                  UserContent.text (record { text = p; text_signature = none })
                  ∷ map UserContent.image images);
              timestamp = now;
            }))
          ∷ [])

  unfoldable pub from_follow_up :
      Agent H Tool Listener
      → List (AgentMessage H) × PendingMessageQueue (AgentMessage H)
      → Agent H Tool Listener × Outcome (Started H Tool Listener)
  from_follow_up a ([], rest) = (record a { follow_up_queue = rest }, err assistant_last)
  from_follow_up a (m ∷ ms, rest) =
      let a' = record a { follow_up_queue = rest } in (a', prompt_with a' (m ∷ ms))

  unfoldable pub from_steering :
      Agent H Tool Listener
      → List (AgentMessage H) × PendingMessageQueue (AgentMessage H)
      → Agent H Tool Listener × Outcome (Started H Tool Listener)
  unfolding from_follow_up
  from_steering a ([], rest) =
      from_follow_up (record a { steering_queue = rest }) (drain_now a.follow_up_queue)
  from_steering a (m ∷ ms, rest) =
      let a' = record a { steering_queue = rest } in
      (a', run_with_skip a' (prompt_messages (m ∷ ms)) true)

  -- The agent with the queues as the call leaves them, and the run that has begun or the error.
  unfoldable pub continue_run :
      Agent H Tool Listener → Agent H Tool Listener × Outcome (Started H Tool Listener)
  unfolding is_assistant from_steering prompt_with
  continue_run a =
      if is_busy a
      then (a, err busy_continue)
      else if is_empty a.state.messages
      then (a, err no_messages)
      else if is_assistant (last a.state.messages)
      then from_steering a (drain_now a.steering_queue)
      else (a, run_with_skip a continue false)

  -- What the loop is given when it asks for queued messages, and the agent; `extra` is the answer of
  -- the provider in the options.
  unfoldable pub poll_steering :
      Agent H Tool Listener
      → Option (Answer (AgentMessage H))
      → Answer (AgentMessage H) × Agent H Tool Listener
  poll_steering a extra =
      let (answer, rest) = get_queued_messages a.steering_queue extra in
      (answer, record a { steering_queue = rest })

  unfoldable pub poll_follow_up :
      Agent H Tool Listener
      → Option (Answer (AgentMessage H))
      → Answer (AgentMessage H) × Agent H Tool Listener
  poll_follow_up a extra =
      let (answer, rest) = get_queued_messages a.follow_up_queue extra in
      (answer, record a { follow_up_queue = rest })
