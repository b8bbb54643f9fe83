-- ===== src/AgentLoop/Samples.antt =====
-- The agent loop at concrete inputs: tests of the definitions, and uses of the theorems.
use ri.Base.{
  ℕ, ◌+◌, ◌≡◌, ◌<◌, ◌↔◌, refl, true, false, Option, none, some, List, [], ◌∷◌, ◌++◌, codes, Text,
  inl, length, text_eq, filter_map, is_empty, last,
}
use ri.Base.Int.{pos}
use ri.Message.{Host, StopReason, usage_zero, AssistantMessage, AssistantContent, ToolCall}
use ri.Agent.Types.{
  ThinkingLevel, initial_state, AgentMessage, AgentEvent, Model, AssistantMessageEvent,
  AgentToolResult, QueueMode,
}
use ri.Agent.Run.{
  Outcome, ok, err, Started, LoopCall, prompt_with, run_with_skip, is_busy, run_outcome,
  is_assistant,
}
use ri.Agent.Machine.{Agent, AgentOptions, new_agent}
use ri.Agent.Life.Whole.{on_events}
use ri.AgentLoop.Types.{
  ToolExecutionMode, AgentTool, LoopContext, SimpleStreamOptions, Context,
  AssistantMessageEventStream, AgentLoopConfig, Outside, LoopState, TurnOutcome, prepared,
}
use ri.AgentLoop.Run.{
  Carried, LoopReturn, returned, max_turns_of, run_until_done, turn_loop, get_queued_messages,
  get_follow_up_messages, prepare_next_turn, extend, should_stop_after_turn,
}
use ri.AgentLoop.Turn.{
  run_one_turn, use_parallel_tool_execution, assistant_tool_calls, prepare_all, record_results,
}
use ri.AgentLoop.Record.{
  record_injected_messages, record_tool_result_message_events, record_event, push_message, deliver,
}
use ri.AgentLoop.Prepare.{prepare_tool_call, call_hooks}
use ri.AgentLoop.Execute.{
  should_terminate_tool_batch, execute_tool_calls_in_source_order, execute_tool_calls,
  execute_prepared_tool_call, record_ends, record_tool_execution_end,
  tool_result_message_from_outcome, record_result,
}
use ri.AgentLoop.Effect.Whole.{ReturnsWhole}
use ri.AgentLoop.Effect.Calls.{Continued, agent_loop_prompt_messages-whole, agent_loop_continue_lem}
use ri.AgentLoop.Order.Answers.{Answers, run_one_turn-Answers}
use ri.AgentLoop.Order.Last.{at_request, turn_loop_last}
use ri.AgentLoop.Pairs.Loop.{Closed, agent_loop-Closed}
use ri.AgentLoop.Allowed.{prepared_call, Passes, prepare_tool_call_lem}
use ri.AgentLoop.Panic.{finish_agent_loop_with_error_panics}
use ri.AgentLoop.Joined.{prompt_with-loop}
use ri.AgentLoop.Call.{
  agent_loop_prompt_messages, agent_loop_continue, finish_agent_loop_with_error,
}

abbrev plain : Host
plain = record { Value = ℕ; Float = ℕ; float_zero = 0 }

abbrev model : Model plain
model = record {
  id = codes "m";
  name = codes "M";
  api = codes "a";
  provider = codes "p";
  base_url = [];
  reasoning = false;
  thinking_level_map = [];
  input = [];
  cost = record { input = 0; output = 0; cache_read = 0; cache_write = 0; tiers = [] };
  context_window = 1000;
  max_tokens = 100;
  headers = [];
  compat = none;
}

abbrev says : List (AssistantContent plain) → StopReason → AssistantMessage plain
says content reason = record {
  content = content;
  api = codes "a";
  provider = codes "p";
  model = codes "m";
  response_model = none;
  response_id = none;
  diagnostics = [];
  usage = usage_zero;
  stop_reason = reason;
  error_message = none;
  timestamp = pos 0;
}

abbrev asks : Text → Text → AssistantContent plain
asks id name =
    AssistantContent.tool_call
      (record { id = id; name = name; arguments = []; thought_signature = none })

-- The world is the responses that are still to come.
abbrev World : Type 0
World = List (AssistantMessage plain)

abbrev stream :
    Model plain
    → Context plain
    → SimpleStreamOptions World ℕ
    → World
    → Outcome (AssistantMessageEventStream plain) × World
stream m c o [] = (err (codes "no more"), [])
stream m c o (r ∷ rest) = (
  ok (record {
    events = AssistantMessageEvent.start r ∷ AssistantMessageEvent.done r.stop_reason r ∷ [];
    try_result = ok r;
  }),
  rest,
)

abbrev outside : Outside plain World ℕ
outside = record {
  stream_simple = stream;
  validate_tool_arguments_value = λ tool name args. ok args;
  now_millis = λ w. (pos 7, w);
  object = λ m. length m;
  empty_object = 0;
  next_ready = λ calls w. (1, w);
}

abbrev done_with : ℕ → AgentToolResult plain
done_with n = record {
  content = [];
  details = some n;
  usage = none;
  added_tool_names = none;
  terminate = false;
}

abbrev echo : AgentTool plain World
echo = record {
  definition = record { name = codes "echo"; description = []; parameters = 0 };
  label = codes "Echo";
  execution_mode = none;
  argument_preparer = none;
  executor = λ id args w. (done_with 1 ∷ [], ok (done_with 2), w);
}

abbrev config : AgentLoopConfig plain World ℕ
config = record {
  model = model;
  stream_options = record {
    stream = record { api_key = none; abort_flag = none; rest = 0 };
    reasoning = none;
    rest = 0;
  };
  tool_call_hooks = [];
  tool_result_hooks = [];
  transform_context = none;
  convert_to_llm = none;
  stream_provider = none;
  api_key_provider = none;
  prepare_next_turn = none;
  should_stop_after_turn = none;
  queued_message_provider = none;
  follow_up_message_provider = none;
  event_sink = none;
  skip_initial_queued_message_poll = false;
  tool_execution = ToolExecutionMode.parallel;
  max_turns = 3;
}

abbrev context : LoopContext plain World
context = record { system_prompt = []; messages = []; tools = echo ∷ [] }

abbrev two_calls : AssistantMessage plain
two_calls =
    says
      (asks (codes "1") (codes "echo")
        ∷ (asks (codes "2") (codes "echo") ∷ (asks (codes "3") (codes "other") ∷ [])))
      StopReason.tool_use

abbrev goodbye : AssistantMessage plain
goodbye = says [] StopReason.stop

abbrev responses : World
responses = two_calls ∷ goodbye ∷ []

abbrev said : AgentMessage plain
said = AgentMessage.custom 5

abbrev tool_result_id : AgentMessage plain → Option Text
tool_result_id (AgentMessage.tool_result m) = some m.tool_call_id
tool_result_id _ = none

abbrev result_ids : LoopReturn plain World → List Text
result_ids (returned ms t) = filter_map tool_result_id ms
result_ids _ = []

-- The second call ends first, the third is not found: the results are in the order of the calls.
two_calls_in_order :
    result_ids (agent_loop_prompt_messages outside config context (said ∷ []) responses)
    ≡ codes "1" ∷ (codes "2" ∷ (codes "3" ∷ []))
unfolding agent_loop_prompt_messages run_until_done turn_loop run_one_turn get_queued_messages
    get_follow_up_messages record_injected_messages record_tool_result_message_events record_event
    prepare_next_turn extend should_stop_after_turn use_parallel_tool_execution assistant_tool_calls
    push_message text_eq should_terminate_tool_batch prepare_all prepare_tool_call call_hooks
    record_results execute_tool_calls_in_source_order execute_tool_calls execute_prepared_tool_call
    record_ends record_tool_execution_end deliver tool_result_message_from_outcome record_result
two_calls_in_order = refl

agent_loop_prompt_messages-whole_example :
    ReturnsWhole context
      (said ∷ [])
      (max_turns_of config)
      (agent_loop_prompt_messages outside config context (said ∷ []) responses)
agent_loop_prompt_messages-whole_example =
    agent_loop_prompt_messages-whole outside config context (said ∷ []) responses tt

abbrev spoken : LoopContext plain World
spoken = record context { messages = said ∷ [] }

agent_loop_continue_lem_example :
    Continued spoken
      (max_turns_of config)
      (is_empty spoken.messages)
      (is_assistant (last spoken.messages))
      (agent_loop_continue outside config spoken responses)
agent_loop_continue_lem_example = agent_loop_continue_lem outside config spoken responses tt

abbrev at_turn : LoopState plain World
at_turn = record { context = spoken; events = []; history = []; world = responses }

run_one_turn-Answers_example : Answers (run_one_turn outside config at_turn).0
run_one_turn-Answers_example = run_one_turn-Answers outside config at_turn

-- The model's message is an error.
abbrev gives_up : LoopState plain World
gives_up = record at_turn { world = says [] StopReason.error ∷ [] }

abbrev at_start : Carried plain World ℕ
at_start = record { active_config = config; hook_new_messages = []; all_messages = [] }

abbrev last_turn : Outcome (TurnOutcome plain) × LoopState plain World
last_turn = run_one_turn outside config (at_request config 0 [] gives_up)

turn_loop_last_example :
    turn_loop outside 5 5 0 at_start [] gives_up
    ≡ (ok (AgentMessage.assistant (says [] StopReason.error) ∷ []), last_turn.1)
unfolding run_one_turn record_injected_messages
turn_loop_last_example =
    turn_loop_last outside 5 4 0 at_start [] [] gives_up last_turn.1
      (record {
        messages = AgentMessage.assistant (says [] StopReason.error) ∷ [];
        tool_results = [];
        terminate = false;
        terminal_assistant = true;
      })
      (says [] StopReason.error) refl refl (inl refl)

abbrev options : AgentOptions plain (AgentTool plain World)
options = record {
  system_prompt = [];
  model = model;
  thinking_level = ThinkingLevel.off;
  tools = echo ∷ [];
  messages = [];
  session_id = none;
  steering_mode = QueueMode.one_at_a_time;
  follow_up_mode = QueueMode.all;
}

abbrev fresh : Agent plain (AgentTool plain World) ℕ
fresh = new_agent ℕ options

abbrev begun_run : Started plain (AgentTool plain World) ℕ
begun_run = record {
  agent = record fresh {
    state = record (fresh.state) { is_streaming = true; error_message = none };
    active_run = true;
    abort_flag = false;
  };
  call = LoopCall.prompt_messages (said ∷ []);
  context = record {
    system_prompt = fresh.state.system_prompt;
    messages = fresh.state.messages;
    tools = fresh.state.tools;
  };
  model = fresh.state.model;
  reasoning = none;
  skip_initial_queued_message_poll = false;
}

begun_run_begins : prompt_with fresh (said ∷ []) ≡ ok begun_run
unfolding prompt_with run_with_skip is_busy new_agent initial_state
begun_run_begins = refl

prompt_with-loop_example :
    (new : List (AgentMessage plain)) × (t : LoopState plain World) × (agent_loop_prompt_messages
        outside config begun_run.context
        (said ∷ [])
        responses
      ≡ returned new t)
    × (let b = run_outcome (on_events begun_run.agent t.history).0 (ok new) in
        (is_busy b ≡ false)
        × (b.state.pending_tool_calls ≡ [])
        × (b.state.messages ≡ t.context.messages)
        × (b.state.messages ≡ fresh.state.messages ++ new))
prompt_with-loop_example =
    prompt_with-loop outside config fresh (said ∷ []) begun_run responses tt begun_run_begins

agent_loop-Closed_example :
    Closed (agent_loop_prompt_messages outside config context (said ∷ []) responses)
    × Closed (agent_loop_continue outside config context responses)
agent_loop-Closed_example = agent_loop-Closed outside config context (said ∷ []) responses

abbrev first_call : ToolCall plain
first_call = record {
  id = codes "1";
  name = codes "echo";
  arguments = [];
  thought_signature = none;
}

prepare_tool_call_lem_example :
    let started =
      record_event config
        (AgentEvent.tool_execution_start first_call.id first_call.name
          (outside.object first_call.arguments))
        at_turn in
    ((prepare_tool_call outside config two_calls 0 first_call at_turn).0
      ≡ prepared (prepared_call outside config started.context two_calls 0 first_call echo 0))
    ↔ Passes outside config started.context two_calls 0 first_call echo started.world 0
prepare_tool_call_lem_example =
    prepare_tool_call_lem outside config two_calls 0 first_call at_turn echo 0

finish_agent_loop_with_error_panics_example :
    ((finish_agent_loop_with_error outside config 3 (codes "e") at_turn).0 ≡ none)
    ↔ (length at_turn.context.messages + 1 < 3)
finish_agent_loop_with_error_panics_example =
    finish_agent_loop_with_error_panics outside config 3 (codes "e") at_turn
