-- ===== src/Agent/Machine.antt =====
-- `Agent` of crates/ri-agent-core/src/agent.rs: the fields that its methods read or change, and the
-- methods apart from those that begin or end a run. `Tool` stands for the tools and `Listener` for
-- the callbacks, which are only kept and called.
pub mod Listeners
use ri.Base.{
  u64_mod, ℕ, zero, suc, ◌+◌, ◌%◌, Bool, true, false, not, ◌||◌, ◌&&◌, Option, none, some, List, [],
  ◌∷◌, ◌++◌, Text, codes, is_empty, last, map, if◌then◌else◌, ltb, ◌==◌,
}
use ri.Base.Int.{ℤ}
use ri.Agent.Reduce.{reduce_agent_state}
use ri.Message.{
  Host, Message, UserMessage, UserContent, UserContentValue, ImageContent, TextContent,
  AssistantMessage,
}
use ri.Agent.Types.{
  Model, ThinkingLevel, off, AgentMessage, AgentEvent, AgentState, QueueMode, initial_state,
  from_message, agent_start, agent_end, turn_start, turn_end, message_start, message_update,
  message_end, tool_execution_start, tool_execution_update, tool_execution_end,
}
use ri.Agent.Queue.{PendingMessageQueue, new_queue, enqueue, set_mode, drain_now, has_items, clear}

-- `Listener` stands for the callbacks.
pub record Agent (H : Host) (Tool Listener : Type 0) : Type 0 where
  pub state : AgentState H Tool
  pub session_id : Option Text
  pub steering_queue : PendingMessageQueue (AgentMessage H)
  pub follow_up_queue : PendingMessageQueue (AgentMessage H)
  pub steering_mode_field : QueueMode
  pub follow_up_mode_field : QueueMode
  pub listeners : List (ℕ × Listener)
  pub next_listener_id : ℕ
  pub abort_flag : Bool
  pub active_run : Bool

-- The options that an agent's own methods read; the others are only handed on to the loop.
pub record AgentOptions (H : Host) (Tool : Type 0) : Type 0 where
  pub system_prompt : Text
  pub model : Model H
  pub thinking_level : ThinkingLevel
  pub tools : List Tool
  pub messages : List (AgentMessage H)
  pub session_id : Option Text
  pub steering_mode : QueueMode
  pub follow_up_mode : QueueMode

-- `BTreeMap::insert` under a number, in the order of the numbers.
pub insert_listener : {L : Type 0} → List (ℕ × L) → ℕ → L → List (ℕ × L)
insert_listener [] id l = (id, l) ∷ []
insert_listener ((j, m) ∷ ls) id l =
    let later = insert_listener ls id l in
    if ltb id j then (id, l) ∷ ((j, m) ∷ ls) else if id == j then (id, l) ∷ ls else (j, m) ∷ later

pub remove_listener : {L : Type 0} → List (ℕ × L) → ℕ → List (ℕ × L)
remove_listener [] id = []
remove_listener ((j, m) ∷ ls) id =
    let later = remove_listener ls id in if id == j then ls else (j, m) ∷ later

module _ {H : Host} {Tool : Type 0} (Listener : Type 0) where
  unfoldable pub new_agent : AgentOptions H Tool → Agent H Tool Listener
  new_agent o = record {
    state = record (initial_state Tool o.model) {
      system_prompt = o.system_prompt;
      thinking_level = o.thinking_level;
      tools = o.tools;
      messages = o.messages;
    };
    session_id = o.session_id;
    steering_queue = new_queue o.steering_mode;
    follow_up_queue = new_queue o.follow_up_mode;
    steering_mode_field = o.steering_mode;
    follow_up_mode_field = o.follow_up_mode;
    listeners = [];
    next_listener_id = 1;
    abort_flag = false;
    active_run = false;
  }

module _ {H : Host} {Tool Listener : Type 0} where
  unfoldable pub set_steering_mode : Agent H Tool Listener → QueueMode → Agent H Tool Listener
  set_steering_mode a mode = record a {
    steering_mode_field = mode;
    steering_queue = set_mode a.steering_queue mode;
  }

  unfoldable pub set_follow_up_mode : Agent H Tool Listener → QueueMode → Agent H Tool Listener
  set_follow_up_mode a mode = record a {
    follow_up_mode_field = mode;
    follow_up_queue = set_mode a.follow_up_queue mode;
  }

  unfoldable pub set_session_id : Agent H Tool Listener → Option Text → Agent H Tool Listener
  set_session_id a id = record a { session_id = id }

  unfoldable pub steer : Agent H Tool Listener → AgentMessage H → Agent H Tool Listener
  steer a m = record a { steering_queue = enqueue a.steering_queue m }

  unfoldable pub follow_up : Agent H Tool Listener → AgentMessage H → Agent H Tool Listener
  follow_up a m = record a { follow_up_queue = enqueue a.follow_up_queue m }

  unfoldable pub clear_steering_queue : Agent H Tool Listener → Agent H Tool Listener
  clear_steering_queue a = record a { steering_queue = clear a.steering_queue }

  unfoldable pub clear_follow_up_queue : Agent H Tool Listener → Agent H Tool Listener
  clear_follow_up_queue a = record a { follow_up_queue = clear a.follow_up_queue }

  unfoldable pub clear_all_queues : Agent H Tool Listener → Agent H Tool Listener
  unfolding clear_steering_queue clear_follow_up_queue
  clear_all_queues a = clear_follow_up_queue (clear_steering_queue a)

  unfoldable pub has_queued_messages : Agent H Tool Listener → Bool
  has_queued_messages a = has_items a.steering_queue || has_items a.follow_up_queue

  unfoldable pub reset : Agent H Tool Listener → Agent H Tool Listener
  unfolding clear_all_queues
  reset a =
      let cleared = record (a.state) {
        messages = [];
        is_streaming = false;
        streaming_message = none;
        pending_tool_calls = [];
        error_message = none;
      } in
      clear_all_queues (record a {
        state = cleared;
        abort_flag = if not a.active_run then false else a.abort_flag;
      })

  unfoldable pub abort : Agent H Tool Listener → Agent H Tool Listener
  abort a = record a { abort_flag = true }

  -- The new listener's number, and the agent; the counter is an `AtomicU64`.
  unfoldable pub subscribe : Agent H Tool Listener → Listener → ℕ × Agent H Tool Listener
  unfolding insert_listener
  subscribe a l = (
    a.next_listener_id,
    record a {
      listeners = insert_listener a.listeners a.next_listener_id l;
      next_listener_id = (a.next_listener_id + 1) % u64_mod;
    },
  )

  unfoldable pub unsubscribe : Agent H Tool Listener → ℕ → Agent H Tool Listener
  unfolding remove_listener
  unsubscribe a id = record a { listeners = remove_listener a.listeners id }

  -- The state after an event, and the listeners that are called with it, in order.
  unfoldable pub on_event :
      Agent H Tool Listener → AgentEvent H → Agent H Tool Listener × List Listener
  on_event a e = (
    record a { state = reduce_agent_state a.state e },
    map (λ (l : ℕ × Listener). l.1) a.listeners,
  )
