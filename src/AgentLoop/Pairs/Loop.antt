-- ===== src/AgentLoop/Pairs/Loop.antt =====
-- No tool call is left open by a run of the loop of crates/ri-agent-core/src/agent_loop.rs.
use ri.Base.{
  ℕ, zero, suc, ◌+◌, ◌≡◌, refl, Bool, true, false, not, ◌||◌, ◌&&◌, Option, none, some, List, [],
  ◌∷◌, ◌++◌, Text, is_empty, length, arith, ltb, if◌then◌else◌, last,
}
use ri.Message.{Host}
use ri.Agent.Types.{AgentMessage, AgentEvent}
use ri.Agent.Run.{Outcome, ok, err, is_assistant}
use ri.AgentLoop.Types.{
  AgentLoopConfig, LoopState, LoopContext, Outside, TurnOutcome, AgentNextTurnContext,
  AgentLoopTurnUpdate,
}
use ri.AgentLoop.Record.{record_event, record_injected_messages}
use ri.AgentLoop.Turn.{run_one_turn}
use ri.AgentLoop.Run.{
  get_messages_from_provider, get_queued_messages, get_follow_up_messages, prepare_next_turn,
  ask_preparer, updated, should_stop_after_turn, ask_hook, Carried, Later, after_follow_up,
  after_queued, after_stop, after_prepare, extend, after_turn, turn_loop, begin_turns,
  run_until_done, LoopReturn, returned, refused, panicked,
}
use ri.AgentLoop.Call.{
  agent_loop_prompt_messages, agent_loop_continue, begin, record_prompts, settle, end_with,
  finish_agent_loop_with_error, finish_state,
}
use ri.AgentLoop.Pairs.{OpenIn, OpenIn-quiet, is_open}
use ri.AgentLoop.Pairs.Turn.{OpenIn-turn, OpenIn-injected, OpenIn-prompts, OpenIn-add}

by_test {ℓ κ} :
    {A : Type ℓ} (P : A → Type κ) (t : Bool) {x y : A} → P x → P y → P (if t then x else y)
by_test P true px py = px
by_test P false px py = py

module _ {H : Host} {W : Type 0} (p : Text → Bool) where
  OpenIn-provider :
      (provider : Option (W → Outcome (List (AgentMessage H)) × W)) (s : LoopState H W)
      → OpenIn p s
      → OpenIn p (get_messages_from_provider provider s).1
  unfolding get_messages_from_provider
  OpenIn-provider none s o = o
  OpenIn-provider (some provider) s o = o

  OpenIn-hook :
      (hook : Option (AgentNextTurnContext H W → W → Outcome Bool × W)) (x : TurnOutcome H)
      (first new : List (AgentMessage H)) (s : LoopState H W)
      → OpenIn p s
      → OpenIn p (ask_hook hook x first new s).1
  unfolding ask_hook
  OpenIn-hook none x first new s o = o
  OpenIn-hook (some hook) x [] new s o = o
  OpenIn-hook (some hook) x (AgentMessage.assistant m ∷ ms) new s o = o
  OpenIn-hook (some hook) x (AgentMessage.user m ∷ ms) new s o = o
  OpenIn-hook (some hook) x (AgentMessage.tool_result m ∷ ms) new s o = o
  OpenIn-hook (some hook) x (AgentMessage.custom v ∷ ms) new s o = o

module _ {H : Host} {W S : Type 0} (p : Text → Bool) where
  OpenIn-updated :
      (config : AgentLoopConfig H W S) (r : Outcome (Option (AgentLoopTurnUpdate H W S)) × W)
      (s : LoopState H W)
      → OpenIn p s
      → OpenIn p (updated config r s).1
  unfolding updated
  OpenIn-updated config (err e, w) s o = o
  OpenIn-updated config (ok update, w) s o = o

  OpenIn-preparer :
      (preparer : Option
        (AgentNextTurnContext H W → W → Outcome (Option (AgentLoopTurnUpdate H W S)) × W))
      (config : AgentLoopConfig H W S) (x : TurnOutcome H) (first new : List (AgentMessage H))
      (s : LoopState H W)
      → OpenIn p s
      → OpenIn p (ask_preparer preparer config x first new s).1
  unfolding ask_preparer
  OpenIn-preparer none config x first new s o = o
  OpenIn-preparer (some f) config x [] new s o = o
  OpenIn-preparer (some f) config x (AgentMessage.assistant m ∷ ms) new s o =
      OpenIn-updated config _ s o
  OpenIn-preparer (some f) config x (AgentMessage.user m ∷ ms) new s o = o
  OpenIn-preparer (some f) config x (AgentMessage.tool_result m ∷ ms) new s o = o
  OpenIn-preparer (some f) config x (AgentMessage.custom v ∷ ms) new s o = o

module _ {H : Host} {W S : Type 0} (p : Text → Bool) (later : Later H W S)
    (good : (c : Carried H W S) (pending : List (AgentMessage H)) (s : LoopState H W)
      → OpenIn p s
      → OpenIn p (later c pending s).1) where
  OpenIn-follow_up :
      (c : Carried H W S) (r : Outcome (List (AgentMessage H)) × LoopState H W)
      → OpenIn p r.1
      → OpenIn p (after_follow_up later c r).1
  unfolding after_follow_up
  OpenIn-follow_up c (err e, s) o = o
  OpenIn-follow_up c (ok [], s) o = o
  OpenIn-follow_up c (ok (m ∷ ms), s) o = good c (m ∷ ms) s o

  OpenIn-queued :
      (c : Carried H W S) (go : Bool) (r : Outcome (List (AgentMessage H)) × LoopState H W)
      → OpenIn p r.1
      → OpenIn p (after_queued later c go r).1
  unfolding after_queued get_follow_up_messages
  OpenIn-queued c go (err e, s) o = o
  OpenIn-queued c go (ok pending, s) o =
      by_test (λ (r : Outcome (List (AgentMessage H)) × LoopState H W). OpenIn p r.1)
        (go || not (is_empty pending)) (good c pending s o)
        (OpenIn-follow_up c (get_follow_up_messages c.active_config s)
          (OpenIn-provider p c.active_config.follow_up_message_provider s o))

  OpenIn-stop :
      (c : Carried H W S) (go : Bool) (r : Outcome Bool × LoopState H W)
      → OpenIn p r.1
      → OpenIn p (after_stop later c go r).1
  unfolding after_stop get_queued_messages
  OpenIn-stop c go (err e, s) o = o
  OpenIn-stop c go (ok true, s) o = o
  OpenIn-stop c go (ok false, s) o =
      OpenIn-queued c go (get_queued_messages c.active_config s)
        (OpenIn-provider p c.active_config.queued_message_provider s o)

  OpenIn-after_prepare :
      (c : Carried H W S) (x : TurnOutcome H) (r : Outcome (AgentLoopConfig H W S) × LoopState H W)
      → OpenIn p r.1
      → OpenIn p (after_prepare later c x r).1
  unfolding after_prepare should_stop_after_turn
  OpenIn-after_prepare c x (err e, s) o = o
  OpenIn-after_prepare c x (ok config, s) o =
      OpenIn-stop (record c { active_config = config })
        (not x.terminate && not (is_empty x.tool_results))
        (should_stop_after_turn config x c.hook_new_messages s)
        (OpenIn-hook p config.should_stop_after_turn x x.messages c.hook_new_messages s o)

  OpenIn-after_turn :
      (c : Carried H W S) (r : Outcome (TurnOutcome H) × LoopState H W)
      → OpenIn p r.1
      → OpenIn p (after_turn later c r).1
  unfolding after_turn extend prepare_next_turn
  OpenIn-after_turn c (err e, s) o = o
  OpenIn-after_turn c (ok x, s) o =
      by_test (λ (r : Outcome (List (AgentMessage H)) × LoopState H W). OpenIn p r.1)
        x.terminal_assistant o
        (OpenIn-after_prepare (extend x.messages c) x
          (prepare_next_turn c.active_config x (c.hook_new_messages ++ x.messages) s)
          (OpenIn-preparer p c.active_config.prepare_next_turn c.active_config x x.messages
            (c.hook_new_messages ++ x.messages) s o))

module _ {H : Host} {W S : Type 0} (outside : Outside H W S) (p : Text → Bool) where
  OpenIn-turn_loop :
      (max left index : ℕ) (c : Carried H W S) (pending : List (AgentMessage H)) (s : LoopState H W)
      → OpenIn p s
      → OpenIn p (turn_loop outside max left index c pending s).1
  unfolding turn_loop
  OpenIn-turn_loop max zero index c pending s o = o
  OpenIn-turn_loop max (suc left) index c pending s o =
      let config = c.active_config in
      let s1 = if ltb 0 index then record_event config AgentEvent.turn_start s else s in
      let s2 = record_injected_messages config pending s1 in
      OpenIn-after_turn p (turn_loop outside max left (index + 1))
        (OpenIn-turn_loop max left (index + 1)) (extend pending c) (run_one_turn outside config s2)
        (OpenIn-turn outside p config s2 (
          OpenIn-injected config p pending s1 (
            by_test (OpenIn p) (ltb 0 index)
              (OpenIn-quiet config p AgentEvent.turn_start s (λ k. refl) o) o)))

  OpenIn-begin_turns :
      (config : AgentLoopConfig H W S) (initial : List (AgentMessage H))
      (r : Outcome (List (AgentMessage H)) × LoopState H W)
      → OpenIn p r.1
      → OpenIn p (begin_turns outside config initial r).1
  unfolding begin_turns
  OpenIn-begin_turns config initial (err e, s) o = o
  OpenIn-begin_turns config initial (ok pending, s) o = OpenIn-turn_loop _ _ 0 _ pending s o

  OpenIn-run_until_done :
      (config : AgentLoopConfig H W S) (initial : List (AgentMessage H)) (s : LoopState H W)
      → OpenIn p s
      → OpenIn p (run_until_done outside config initial s).1
  unfolding run_until_done get_queued_messages
  OpenIn-run_until_done config initial s o =
      by_test
        (λ (r : Outcome (List (AgentMessage H)) × LoopState H W).
          OpenIn p (begin_turns outside config initial r).1)
        config.skip_initial_queued_message_poll {x = (ok [], s)} {y = get_queued_messages config s}
        (OpenIn-begin_turns config initial (ok [], s) o)
        (OpenIn-begin_turns config initial (get_queued_messages config s)
          (OpenIn-provider p config.queued_message_provider s o))

module _ {H : Host} {W : Type 0} where
  -- No tool call is open at the end of a call of the loop that returns.
  abbrev pub Closed : LoopReturn H W → Type 0
  Closed (returned ms t) = (k : Text) → is_open k t.history ≡ false
  Closed (refused e) = Unit
  Closed panicked = Unit

module _ {H : Host} {W S : Type 0} (outside : Outside H W S) (config : AgentLoopConfig H W S) where
  abbrev nothing : Text → Bool
  nothing k = false

  end_with-Closed :
      (r : Option (List (AgentMessage H)) × LoopState H W)
      → OpenIn nothing r.1
      → Closed (end_with config r)
  unfolding end_with
  end_with-Closed (none, s) o = tt
  end_with-Closed (some ms, s) o =
      λ k. ground (arith, OpenIn-quiet config nothing (AgentEvent.agent_end ms) s (λ j. refl) o k)

  OpenIn-settle :
      (n : ℕ) (prompts : List (AgentMessage H))
      (r : Outcome (List (AgentMessage H)) × LoopState H W)
      → OpenIn nothing r.1
      → OpenIn nothing (settle outside config n prompts r).1
  unfolding settle finish_agent_loop_with_error finish_state
  OpenIn-settle n prompts (ok ms, s) o = o
  OpenIn-settle n prompts (err e, s) o =
      OpenIn-quiet config nothing _ _ (λ k. refl)
        (OpenIn-add config nothing _ _
          (OpenIn-quiet config nothing _ (record s { world = _ }) (λ k. refl) o))

  OpenIn-begin : (context : LoopContext H W) (w : W) → OpenIn nothing (begin config context w)
  unfolding begin
  OpenIn-begin context w =
      OpenIn-quiet config nothing AgentEvent.turn_start _ (λ k. refl)
        (OpenIn-quiet config nothing AgentEvent.agent_start
          (record { context = context; events = []; history = []; world = w }) (λ k. refl)
          (λ k h. cc))

  -- Whenever a call of the loop returns, whatever failed in it, every tool call that its events have
  -- started they have ended.
  pub agent_loop-Closed :
      (context : LoopContext H W) (prompts : List (AgentMessage H)) (w : W)
      → Closed (agent_loop_prompt_messages outside config context prompts w)
        × Closed (agent_loop_continue outside config context w)
  unfolding agent_loop_prompt_messages agent_loop_continue
  agent_loop-Closed context prompts w =
      let s = begin config (record context { messages = context.messages ++ prompts }) w in
      let s1 = record_prompts config prompts s in
      let t = begin config context w in
      (
        end_with-Closed
            (settle outside config (length context.messages) prompts
              (run_until_done outside config prompts s1))
            (OpenIn-settle (length context.messages) prompts
              (run_until_done outside config prompts s1)
              (OpenIn-run_until_done outside nothing config prompts s1 (
                OpenIn-prompts config nothing prompts s
                  (OpenIn-begin (record context { messages = context.messages ++ prompts }) w)))),
        by_test Closed (is_empty context.messages) tt (
            by_test Closed (is_assistant (last context.messages)) tt (
              end_with-Closed
                (settle outside config (length context.messages) []
                  (run_until_done outside config [] t))
                (OpenIn-settle (length context.messages) [] (run_until_done outside config [] t)
                  (OpenIn-run_until_done outside nothing config [] t (OpenIn-begin context w))))),
      )
