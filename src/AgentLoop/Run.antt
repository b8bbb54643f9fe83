-- ===== src/AgentLoop/Run.antt =====
-- The loop over turns: `run_until_done` of crates/ri-agent-core/src/agent_loop.rs, and the calls that
-- start it.
-- `for turn_index in 0..max_turns` is a recursion on the turns that are left.
use ri.Base.{
  ℕ, zero, suc, ◌+◌, Bool, true, false, not, ◌&&◌, ◌||◌, Option, none, some, List, [], ◌∷◌, ◌++◌,
  Text, codes, if◌then◌else◌, is_empty, ltb, leb, show_nat, or_else,
}
use ri.Message.{Host}
use ri.Agent.Types.{AgentMessage, AgentEvent, ThinkingLevel}
use ri.Agent.Run.{Outcome, ok, err, unless_off}
use ri.AgentLoop.Types.{
  LoopContext, AgentNextTurnContext, AgentLoopTurnUpdate, AgentLoopConfig, TurnOutcome, Outside,
  LoopState,
}
use ri.AgentLoop.Record.{record_event, record_injected_messages}
use ri.AgentLoop.Turn.{run_one_turn}

abbrev pub exceeded : ℕ → Text
exceeded max_turns =
    codes "Agent loop exceeded maximum tool continuation turns: " ++ show_nat max_turns

abbrev pub no_context_messages : Text
no_context_messages = codes "Cannot continue: no messages in context"

-- What a call of the loop comes to: messages, with the state of the loop, which holds its event log;
-- an error; or a panic.
pub data LoopReturn (H : Host) (W : Type 0) : Type 0 where
  returned : List (AgentMessage H) → LoopState H W → LoopReturn H W
  refused : Text → LoopReturn H W
  panicked : LoopReturn H W

module _ {H : Host} {W : Type 0} where
  unfoldable pub get_messages_from_provider :
      Option (W → Outcome (List (AgentMessage H)) × W)
      → LoopState H W
      → Outcome (List (AgentMessage H)) × LoopState H W
  get_messages_from_provider none s = (ok [], s)
  get_messages_from_provider (some provider) s =
      let (answer, w) = provider s.world in (answer, record s { world = w })

module _ {H : Host} {W S : Type 0} where
  unfoldable pub get_queued_messages :
      AgentLoopConfig H W S → LoopState H W → Outcome (List (AgentMessage H)) × LoopState H W
  unfolding get_messages_from_provider
  get_queued_messages config s = get_messages_from_provider config.queued_message_provider s

  unfoldable pub get_follow_up_messages :
      AgentLoopConfig H W S → LoopState H W → Outcome (List (AgentMessage H)) × LoopState H W
  unfolding get_messages_from_provider
  get_follow_up_messages config s = get_messages_from_provider config.follow_up_message_provider s

  unfoldable pub set_thinking_level :
      Option ThinkingLevel → AgentLoopConfig H W S → AgentLoopConfig H W S
  set_thinking_level none config = config
  set_thinking_level (some level) config = record config {
    stream_options = record (config.stream_options) { reasoning = unless_off level };
  }

  unfoldable pub apply_turn_update :
      LoopContext H W
      → AgentLoopConfig H W S
      → Option (AgentLoopTurnUpdate H W S)
      → LoopContext H W × AgentLoopConfig H W S
  unfolding set_thinking_level
  apply_turn_update context config none = (context, config)
  apply_turn_update context config (some update) = (
    or_else context update.context,
    set_thinking_level update.thinking_level (record config {
      model = or_else config.model update.model;
      stream_options = or_else config.stream_options update.stream_options;
    }),
  )

  unfoldable pub updated :
      AgentLoopConfig H W S
      → Outcome (Option (AgentLoopTurnUpdate H W S)) × W
      → LoopState H W
      → Outcome (AgentLoopConfig H W S) × LoopState H W
  unfolding apply_turn_update
  updated config (err e, w) s = (err e, record s { world = w })
  updated config (ok update, w) s =
      let (context, config') = apply_turn_update s.context config update in
      (ok config', record s { context = context; world = w })

  unfoldable pub ask_preparer :
      Option (AgentNextTurnContext H W → W → Outcome (Option (AgentLoopTurnUpdate H W S)) × W)
      → AgentLoopConfig H W S
      → TurnOutcome H
      → List (AgentMessage H)
      → List (AgentMessage H)
      → LoopState H W
      → Outcome (AgentLoopConfig H W S) × LoopState H W
  unfolding updated
  ask_preparer (some preparer) config outcome (AgentMessage.assistant m ∷ _) new_messages s =
      updated config
        (preparer
          (record {
            message = m;
            tool_results = outcome.tool_results;
            context = s.context;
            new_messages = new_messages;
          })
          s.world)
        s
  ask_preparer _ config outcome _ new_messages s = (ok config, s)

  unfoldable pub prepare_next_turn :
      AgentLoopConfig H W S
      → TurnOutcome H
      → List (AgentMessage H)
      → LoopState H W
      → Outcome (AgentLoopConfig H W S) × LoopState H W
  unfolding ask_preparer
  prepare_next_turn config outcome new_messages s =
      ask_preparer config.prepare_next_turn config outcome outcome.messages new_messages s

module _ {H : Host} {W : Type 0} where
  unfoldable pub ask_hook :
      Option (AgentNextTurnContext H W → W → Outcome Bool × W)
      → TurnOutcome H
      → List (AgentMessage H)
      → List (AgentMessage H)
      → LoopState H W
      → Outcome Bool × LoopState H W
  ask_hook (some hook) outcome (AgentMessage.assistant m ∷ _) new_messages s =
      let (stop, w) =
        hook
          (record {
            message = m;
            tool_results = outcome.tool_results;
            context = s.context;
            new_messages = new_messages;
          })
          s.world in
      (stop, record s { world = w })
  ask_hook _ outcome _ new_messages s = (ok false, s)

module _ {H : Host} {W S : Type 0} where
  unfoldable pub should_stop_after_turn :
      AgentLoopConfig H W S
      → TurnOutcome H
      → List (AgentMessage H)
      → LoopState H W
      → Outcome Bool × LoopState H W
  unfolding ask_hook
  should_stop_after_turn config outcome new_messages s =
      ask_hook config.should_stop_after_turn outcome outcome.messages new_messages s

-- What one turn hands to the next.
pub record Carried (H : Host) (W S : Type 0) : Type 0 where
  pub active_config : AgentLoopConfig H W S
  pub hook_new_messages : List (AgentMessage H)
  pub all_messages : List (AgentMessage H)

abbrev pub Later : Host → Type 0 → Type 0 → Type 0
Later H W S =
    Carried H W S
    → List (AgentMessage H)
    → LoopState H W
    → Outcome (List (AgentMessage H)) × LoopState H W

module _ {H : Host} {W S : Type 0} where
  -- The body of the loop from its end: each step is given the answer of the call before it, and
  -- `later` is the next turn.
  unfoldable pub after_follow_up :
      Later H W S
      → Carried H W S
      → Outcome (List (AgentMessage H)) × LoopState H W
      → Outcome (List (AgentMessage H)) × LoopState H W
  after_follow_up later c (err e, s) = (err e, s)
  after_follow_up later c (ok [], s) = (ok c.all_messages, s)
  after_follow_up later c (ok (m ∷ ms), s) = later c (m ∷ ms) s

  unfoldable pub after_queued :
      Later H W S
      → Carried H W S
      → Bool
      → Outcome (List (AgentMessage H)) × LoopState H W
      → Outcome (List (AgentMessage H)) × LoopState H W
  unfolding after_follow_up
  after_queued later c should_continue (err e, s) = (err e, s)
  after_queued later c should_continue (ok pending, s) =
      if should_continue || not (is_empty pending)
      then later c pending s
      else after_follow_up later c (get_follow_up_messages c.active_config s)

  unfoldable pub after_stop :
      Later H W S
      → Carried H W S
      → Bool
      → Outcome Bool × LoopState H W
      → Outcome (List (AgentMessage H)) × LoopState H W
  unfolding after_queued
  after_stop later c should_continue (err e, s) = (err e, s)
  after_stop later c should_continue (ok true, s) = (ok c.all_messages, s)
  after_stop later c should_continue (ok false, s) =
      after_queued later c should_continue (get_queued_messages c.active_config s)

  unfoldable pub after_prepare :
      Later H W S
      → Carried H W S
      → TurnOutcome H
      → Outcome (AgentLoopConfig H W S) × LoopState H W
      → Outcome (List (AgentMessage H)) × LoopState H W
  unfolding after_stop
  after_prepare later c outcome (err e, s) = (err e, s)
  after_prepare later c outcome (ok config, s) =
      after_stop later (record c { active_config = config })
        (not outcome.terminate && not (is_empty outcome.tool_results))
        (should_stop_after_turn config outcome c.hook_new_messages s)

  unfoldable pub extend : List (AgentMessage H) → Carried H W S → Carried H W S
  extend ms c = record c {
    hook_new_messages = c.hook_new_messages ++ ms;
    all_messages = c.all_messages ++ ms;
  }

  unfoldable pub after_turn :
      Later H W S
      → Carried H W S
      → Outcome (TurnOutcome H) × LoopState H W
      → Outcome (List (AgentMessage H)) × LoopState H W
  unfolding after_prepare
  after_turn later c (err e, s) = (err e, s)
  after_turn later c (ok outcome, s) =
      let c' = extend outcome.messages c in
      if outcome.terminal_assistant
      then (ok c'.all_messages, s)
      else after_prepare later c' outcome
          (prepare_next_turn c'.active_config outcome c'.hook_new_messages s)

  -- `config.max_turns.max(1)`.
  unfoldable pub max_turns_of : AgentLoopConfig H W S → ℕ
  max_turns_of config = if leb config.max_turns 1 then 1 else config.max_turns

module _ {H : Host} {W S : Type 0} (outside : Outside H W S) where
  unfoldable pub turn_loop : ℕ → ℕ → ℕ → Later H W S
  unfolding after_turn
  turn_loop max_turns zero turn_index c pending s = (err (exceeded max_turns), s)
  turn_loop max_turns (suc left) turn_index c pending s =
      let s1 =
        if ltb 0 turn_index then record_event c.active_config AgentEvent.turn_start s else s in
      let s2 = record_injected_messages c.active_config pending s1 in
      after_turn (turn_loop max_turns left (turn_index + 1)) (extend pending c)
        (run_one_turn outside c.active_config s2)

  unfoldable pub begin_turns :
      AgentLoopConfig H W S
      → List (AgentMessage H)
      → Outcome (List (AgentMessage H)) × LoopState H W
      → Outcome (List (AgentMessage H)) × LoopState H W
  unfolding turn_loop max_turns_of
  begin_turns config initial (err e, s) = (err e, s)
  begin_turns config initial (ok pending, s) =
      turn_loop (max_turns_of config) (max_turns_of config) 0
        (record {
          active_config = record config { skip_initial_queued_message_poll = false };
          hook_new_messages = initial;
          all_messages = [];
        })
        pending s

  unfoldable pub run_until_done :
      AgentLoopConfig H W S
      → List (AgentMessage H)
      → LoopState H W
      → Outcome (List (AgentMessage H)) × LoopState H W
  unfolding begin_turns
  run_until_done config initial s =
      begin_turns config initial (
        if config.skip_initial_queued_message_poll
        then (ok [], s)
        else get_queued_messages config s)
