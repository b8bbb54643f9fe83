-- ===== src/Agent/Samples.antt =====
-- Agents at concrete inputs: tests of the definitions, and uses of the theorems.
use ri.Base.{
  map, ℕ, ◌+◌, ◌≡◌, refl, true, false, not, ◌||◌, ◌&&◌, none, some, List, [], ◌∷◌, ◌++◌, codes,
  arith, ◌<◌, ◌≢◌, length, filter_map, last, latest, or_else, is_empty,
}
use ri.Base.Int.{pos}
use ri.Base.Sets.{contains}
use ri.Message.{Host, StopReason, usage_zero}
use ri.Agent.Types.{AgentMessage, AgentEvent, Model, ThinkingLevel, QueueMode, initial_state}
use ri.Agent.Queue.{
  drain_now, enqueue, PendingMessageQueue, Use, Answer, after_uses, after_uses_fifo, enqueued,
  get_queued_messages, get_queued_messages_lost,
}
use ri.Agent.Reduce.{reduce_all, reduce_all_lem, ended, runs, failure}
use ri.Agent.Machine.{
  Agent, AgentOptions, new_agent, subscribe, unsubscribe, on_event, steer, has_queued_messages,
}
use ri.Agent.Machine.Listeners.{Below, subscribe_lem}
use ri.Agent.Run.{
  ok, err, Started, LoopCall, prompt_with, continue_run, run_with_skip, run_outcome, is_busy,
  is_assistant, finish_run,
}
use ri.Agent.Life.{Reachable}
use ri.Agent.Life.Idle.{IsIdle, Reachable-IsIdle}
use ri.Agent.Life.Whole.{on_events, left_error}
use ri.Agent.Life.Runs.{RunStep, emitted, steered, followed_up, on_run, prompt_with-run}
use ri.Agent.Life.Continue.{continue_run_lem, given_to, begins}

abbrev plain : Host
plain = record { Value = ℕ; Float = ℕ; float_zero = 0 }

abbrev model : Model plain
model = record {
  id = codes "m";
  name = codes "M";
  api = codes "a";
  provider = codes "p";
  base_url = [];
  reasoning = false;
  thinking_level_map = [];
  input = [];
  cost = record { input = 0; output = 0; cache_read = 0; cache_write = 0; tiers = [] };
  context_window = 1000;
  max_tokens = 100;
  headers = [];
  compat = none;
}

abbrev said : ℕ → AgentMessage plain
said n = AgentMessage.custom n

abbrev answer : AgentMessage plain
answer = AgentMessage.assistant (record {
  content = [];
  api = codes "a";
  provider = codes "p";
  model = codes "m";
  response_model = none;
  response_id = none;
  diagnostics = [];
  usage = usage_zero;
  stop_reason = StopReason.stop;
  error_message = none;
  timestamp = pos 2;
})

abbrev options : AgentOptions plain Unit
options = record {
  system_prompt = [];
  model = model;
  thinking_level = ThinkingLevel.high;
  tools = [];
  messages = said 0 ∷ (answer ∷ []);
  session_id = none;
  steering_mode = QueueMode.one_at_a_time;
  follow_up_mode = QueueMode.all;
}

abbrev fresh : Agent plain Unit ℕ
fresh = new_agent ℕ options

abbrev call_started : AgentEvent plain
call_started = AgentEvent.tool_execution_start (codes "t") (codes "bash") 0

abbrev events : List (AgentEvent plain)
events =
    AgentEvent.agent_start
    ∷ call_started
    ∷ AgentEvent.message_end (said 1)
    ∷ AgentEvent.agent_end (said 1 ∷ [])
    ∷ []

abbrev begun_run : Started plain Unit ℕ
begun_run = record {
  agent = record fresh {
    state = record (fresh.state) { is_streaming = true; error_message = none };
    active_run = true;
    abort_flag = false;
  };
  call = LoopCall.prompt_messages (said 5 ∷ []);
  context = record {
    system_prompt = fresh.state.system_prompt;
    messages = fresh.state.messages;
    tools = fresh.state.tools;
  };
  model = fresh.state.model;
  reasoning = some ThinkingLevel.high;
  skip_initial_queued_message_poll = false;
}

begun_run_begins : prompt_with fresh (said 5 ∷ []) ≡ ok begun_run
unfolding prompt_with run_with_skip is_busy new_agent initial_state
begun_run_begins = refl

-- The loop polls what is steered before the events, and what is steered after them waits.
abbrev run_steps : List (RunStep plain)
run_steps =
    RunStep.steers (said 8)
    ∷ RunStep.polls_steering
    ∷ (map RunStep.emits events
        ++ (RunStep.polls_follow_up ∷ RunStep.steers (said 9) ∷ RunStep.follows_up (said 7) ∷ []))

polled : (on_run begun_run.agent run_steps).steering ≡ said 8 ∷ []
unfolding steer enqueue drain_now on_event new_agent
polled = refl

prompt_with-run_example :
    let r = on_run begun_run.agent run_steps in
    let b = run_outcome {A = List (AgentMessage plain)} r.agent (err (codes "lost")) in
    let es = filter_map emitted run_steps in
    (is_busy b ≡ false)
    × (b.state.pending_tool_calls ≡ [])
    × (b.state.streaming_message ≡ none)
    × (b.state.messages ≡ fresh.state.messages ++ filter_map ended es)
    × (b.state.error_message ≡ left_error (err (codes "lost")) es)
    × (r.steering ++ b.steering_queue.messages
        ≡ fresh.steering_queue.messages ++ filter_map steered run_steps)
    × (r.follow_ups ++ b.follow_up_queue.messages
        ≡ fresh.follow_up_queue.messages ++ filter_map followed_up run_steps)
prompt_with-run_example =
    prompt_with-run fresh (said 5 ∷ []) begun_run run_steps (err (codes "lost")) begun_run_begins

reduce_all_lem_example :
    ((reduce_all fresh.state events).messages ≡ fresh.state.messages ++ filter_map ended events)
    × (contains (reduce_all fresh.state events).pending_tool_calls (codes "t")
        ≡ or_else
            (contains fresh.state.pending_tool_calls (codes "t"))
            (last (filter_map (runs (codes "t")) events)))
    × ((reduce_all fresh.state events).error_message
        ≡ latest fresh.state.error_message (last (filter_map failure events)))
reduce_all_lem_example = reduce_all_lem fresh.state events (codes "t")

abbrev waiting : PendingMessageQueue ℕ
waiting = record { mode = QueueMode.one_at_a_time; messages = 1 ∷ (2 ∷ []) }

abbrev uses : List (Use ℕ)
uses = Use.drains ∷ Use.enqueues 3 ∷ Use.sets QueueMode.all ∷ Use.drains ∷ []

after_uses_fifo_example :
    (after_uses waiting uses).0 ++ (after_uses waiting uses).1.messages
    ≡ waiting.messages ++ enqueued uses
after_uses_fifo_example = after_uses_fifo waiting uses

waiting_holds : waiting.messages ≢ []
waiting_holds h = absurd (ground (arith, h))

get_queued_messages_lost_example :
    ((get_queued_messages waiting (some (Answer.failed (codes "down")))).0
      ≡ Answer.failed (codes "down"))
    × (length (get_queued_messages waiting (some (Answer.failed (codes "down")))).1.messages
        < length waiting.messages)
get_queued_messages_lost_example = get_queued_messages_lost waiting (codes "down") waiting_holds

fresh-Below : Below fresh.next_listener_id fresh.listeners
unfolding new_agent
fresh-Below = tt

fresh_room : fresh.next_listener_id + 1 < 18446744073709551616
unfolding new_agent
fresh_room = omega arith

subscribe_lem_example :
    let (id, b) = subscribe fresh 7 in
    ((on_event b call_started).1 ≡ (on_event fresh call_started).1 ++ 7 ∷ [])
    × Below b.next_listener_id b.listeners
    × ((unsubscribe b id).listeners ≡ fresh.listeners)
subscribe_lem_example = subscribe_lem fresh 7 call_started fresh-Below fresh_room

Reachable-IsIdle_example :
    IsIdle fresh
    × (is_busy fresh ≡ false)
    × ((s : Started plain Unit ℕ) × (prompt_with fresh (said 5 ∷ []) ≡ ok s)
        × (s.context.messages ≡ fresh.state.messages)
        × (s.context.tools ≡ fresh.state.tools)
        × (s.agent.active_run ≡ true)
        × (s.agent.state.is_streaming ≡ true)
        × (s.agent.state.error_message ≡ none)
        × (s.agent.abort_flag ≡ false))
unfolding new_agent
Reachable-IsIdle_example = Reachable-IsIdle (Reachable.created options) (said 5 ∷ []) refl

continue_run_lem_example :
    let a = steer fresh (said 9) in
    let r = continue_run a in
    (given_to r.1 ++ r.0.steering_queue.messages ++ r.0.follow_up_queue.messages
      ≡ a.steering_queue.messages ++ a.follow_up_queue.messages)
    × (begins r.1 ≡ (
        not (is_busy a)
        && (not (is_empty a.state.messages)
            && (not (is_assistant (last a.state.messages)) || has_queued_messages a))))
    × (r.0.state ≡ a.state)
continue_run_lem_example = continue_run_lem (steer fresh (said 9))

-- Tests: the tool call that the run left open is not pending after it, and the listener is called.
run_ends :
    (run_outcome {A = Unit}
      (on_events begun_run.agent events).0
      (err (codes "lost"))).state.pending_tool_calls
    ≡ []
unfolding run_outcome finish_run
run_ends = refl
