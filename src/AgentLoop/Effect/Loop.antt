-- ===== src/AgentLoop/Effect/Loop.antt =====
-- What the loop over turns adds to its state: `run_until_done` of
-- crates/ri-agent-core/src/agent_loop.rs.
use mathlib.Core.List.{append-nil}
use ri.Base.{
  ℕ, zero, suc, ◌+◌, ◌-◌, ◌≤◌, sym, ◌∙◌, Bool, true, false, Option, none, some, List, [], ◌∷◌, ◌++◌,
  Bool-cases, inl, inr, subst, arith, ltb, if◌then◌else◌, is_empty, not, ◌||◌, ◌&&◌,
}
use ri.Message.{Host}
use ri.Agent.Types.{AgentMessage, AgentEvent, ThinkingLevel}
use ri.Agent.Run.{Outcome, ok, err}
use ri.AgentLoop.Types.{
  AgentLoopConfig, LoopState, Outside, TurnOutcome, AgentNextTurnContext, AgentLoopTurnUpdate,
}
use ri.AgentLoop.Record.{record_event, record_injected_messages}
use ri.AgentLoop.Turn.{run_one_turn}
use ri.AgentLoop.Run.{
  get_queued_messages, get_follow_up_messages, prepare_next_turn, ask_preparer, updated,
  apply_turn_update, set_thinking_level, should_stop_after_turn, Carried, Later, after_follow_up,
  after_queued, after_stop, after_prepare, extend, after_turn, turn_loop, max_turns_of, begin_turns,
  run_until_done,
}
use ri.AgentLoop.Effect.{Effect, Effect-world, Effect-record, Effect-injected}
use ri.AgentLoop.Effect.Turn.{turn_messages, Effect-turn}
use ri.AgentLoop.Effect.Ran.{
  KeepsMessages, SameMessages, Ran, Ran-stop, Ran-step, Ran-quiet, Effect-provider, Effect-hook,
  starts-ends, ended-ends, ended-turn_frame, starts-turn_frame,
}

by_test {ℓ κ} :
    {A : Type ℓ} (P : A → Type κ) (t : Bool) {x y : A} → P x → P y → P (if t then x else y)
by_test P true px py = px
by_test P false px py = py

module _ {H : Host} {W S : Type 0} where
  -- Its configuration lets no turn replace the messages of the context.
  abbrev Keeps : AgentLoopConfig H W S → Type 0
  Keeps config = KeepsMessages config.prepare_next_turn

  set_thinking_level-prepare :
      (level : Option ThinkingLevel) (config : AgentLoopConfig H W S)
      → Keeps config
      → Keeps (set_thinking_level level config)
  unfolding set_thinking_level
  set_thinking_level-prepare none config h = h
  set_thinking_level-prepare (some level) config h = h

  -- What the answer of a preparer that keeps the context leaves.
  abbrev Prepared : LoopState H W → Outcome (AgentLoopConfig H W S) × LoopState H W → Type 0
  Prepared s (err e, t) = Effect s t [] []
  Prepared s (ok config, t) = Keeps config × Effect s t [] []

  updated-Prepared :
      (config : AgentLoopConfig H W S) (r : Outcome (Option (AgentLoopTurnUpdate H W S)) × W)
      (s : LoopState H W)
      → Keeps config
      → SameMessages s.context r.0
      → Prepared s (updated config r s)
  unfolding updated apply_turn_update
  updated-Prepared config (err e, w) s k h = Effect-world s w
  updated-Prepared config (ok none, w) s k h = (k, Effect-world s w)
  updated-Prepared config (ok (some u), w) s k h =
      let f = Effect-world s w in
      (
        set_thinking_level-prepare u.thinking_level _ k,
        record {
          new = f.new;
          history_new = f.history_new;
          events_new = f.events_new;
          outline = f.outline;
          context_new = h ∙ f.context_new;
        },
      )

  ask_preparer-Prepared :
      (p : Option (AgentNextTurnContext H W → W → Outcome (Option (AgentLoopTurnUpdate H W S)) × W))
      (config : AgentLoopConfig H W S) (o : TurnOutcome H) (first new : List (AgentMessage H))
      (s : LoopState H W)
      → KeepsMessages p
      → Keeps config
      → Prepared s (ask_preparer p config o first new s)
  unfolding ask_preparer
  ask_preparer-Prepared none config o first new s h k = (k, Effect-world s s.world)
  ask_preparer-Prepared (some p) config o [] new s h k = (k, Effect-world s s.world)
  ask_preparer-Prepared (some p) config o (AgentMessage.assistant m ∷ ms) new s h k =
      updated-Prepared config _ s k (h _ s.world)
  ask_preparer-Prepared (some p) config o (AgentMessage.user m ∷ ms) new s h k =
      (k, Effect-world s s.world)
  ask_preparer-Prepared (some p) config o (AgentMessage.tool_result m ∷ ms) new s h k =
      (k, Effect-world s s.world)
  ask_preparer-Prepared (some p) config o (AgentMessage.custom v ∷ ms) new s h k =
      (k, Effect-world s s.world)

module _ {H : Host} {W S : Type 0} (later : Later H W S) (b : ℕ)
    (good : (c : Carried H W S) (pending : List (AgentMessage H)) (s : LoopState H W)
      → KeepsMessages c.active_config.prepare_next_turn
      → Ran c.all_messages b s (later c pending s)) where
  after_follow_up-Ran :
      (c : Carried H W S) (r : Outcome (List (AgentMessage H)) × LoopState H W)
      → Keeps c.active_config
      → Ran c.all_messages b r.1 (after_follow_up later c r)
  unfolding after_follow_up
  after_follow_up-Ran c (err e, s) k = Ran-stop c.all_messages b (err e) s tt
  after_follow_up-Ran c (ok [], s) k =
      Ran-stop c.all_messages b (ok c.all_messages) s (sym (append-nil c.all_messages))
  after_follow_up-Ran c (ok (m ∷ ms), s) k = good c (m ∷ ms) s k

  after_queued-Ran :
      (c : Carried H W S) (go : Bool) (r : Outcome (List (AgentMessage H)) × LoopState H W)
      → Keeps c.active_config
      → Ran c.all_messages b r.1 (after_queued later c go r)
  unfolding after_queued get_follow_up_messages
  after_queued-Ran c go (err e, s) k = Ran-stop c.all_messages b (err e) s tt
  after_queued-Ran c go (ok pending, s) k = elim (Bool-cases (go || not (is_empty pending))) [
    | inl e ↦ rw e (good c pending s k)
    | inr e ↦ rw e (
        Ran-quiet c.all_messages b (Effect-provider c.active_config.follow_up_message_provider s)
          (after_follow_up-Ran c _ k))
  ]

  after_stop-Ran :
      (c : Carried H W S) (go : Bool) (r : Outcome Bool × LoopState H W)
      → Keeps c.active_config
      → Ran c.all_messages b r.1 (after_stop later c go r)
  unfolding after_stop get_queued_messages
  after_stop-Ran c go (err e, s) k = Ran-stop c.all_messages b (err e) s tt
  after_stop-Ran c go (ok true, s) k =
      Ran-stop c.all_messages b (ok c.all_messages) s (sym (append-nil c.all_messages))
  after_stop-Ran c go (ok false, s) k =
      Ran-quiet c.all_messages b (Effect-provider c.active_config.queued_message_provider s)
        (after_queued-Ran c go _ k)

  after_prepare-Ran :
      (c : Carried H W S) (o : TurnOutcome H) (s : LoopState H W)
      (r : Outcome (AgentLoopConfig H W S) × LoopState H W)
      → Prepared s r
      → Ran c.all_messages b s (after_prepare later c o r)
  unfolding after_prepare should_stop_after_turn
  after_prepare-Ran c o s (err e, t) f =
      Ran-quiet c.all_messages b f (Ran-stop c.all_messages b (err e) t tt)
  after_prepare-Ran c o s (ok config, t) (k, f) = Ran-quiet c.all_messages b f (
      Ran-quiet c.all_messages b
        (Effect-hook config.should_stop_after_turn o o.messages c.hook_new_messages t)
        (after_stop-Ran (record c { active_config = config })
          (not o.terminate && not (is_empty o.tool_results)) _ k))

  after_turn-Ran :
      (c : Carried H W S) (r : Outcome (TurnOutcome H) × LoopState H W)
      → Keeps c.active_config
      → Ran (c.all_messages ++ turn_messages r.0) b r.1 (after_turn later c r)
  unfolding after_turn extend prepare_next_turn
  after_turn-Ran c (err e, s) k = Ran-stop (c.all_messages ++ []) b (err e) s tt
  after_turn-Ran c (ok o, s) k =
      by_test (Ran (c.all_messages ++ o.messages) b s) o.terminal_assistant
        (Ran-stop (c.all_messages ++ o.messages) b (ok (c.all_messages ++ o.messages)) s
          (sym (append-nil (c.all_messages ++ o.messages))))
        (after_prepare-Ran (extend o.messages c) o s _ (
          ask_preparer-Prepared c.active_config.prepare_next_turn c.active_config o o.messages
            (c.hook_new_messages ++ o.messages) s k k))

module _ {H : Host} {W S : Type 0} (outside : Outside H W S) where
  abbrev first_of : ℕ → ℕ
  first_of index = if ltb 0 index then 0 else 1

  started :
      (config : AgentLoopConfig H W S) (index : ℕ) (s : LoopState H W)
      → let e = ltb 0 index in
        Effect s
          (if e then record_event config AgentEvent.turn_start s else s)
          []
          (if e then AgentEvent.turn_start ∷ [] else [])
  started config index s =
      elim (ltb 0 index)
        as (λ t.
          Effect s (if t then record_event config AgentEvent.turn_start s else s) []
            (if t then AgentEvent.turn_start ∷ [] else [])) [
              | true ↦ Effect-record config AgentEvent.turn_start s
              | false ↦ Effect-world s s.world
            ]

  turn_loop-Ran :
      (max left index b : ℕ) (c : Carried H W S) (pending : List (AgentMessage H))
      (s : LoopState H W)
      → Keeps c.active_config
      → left ≤ b + first_of index
      → Ran c.all_messages b s (turn_loop outside max left index c pending s)
  unfolding turn_loop extend
  turn_loop-Ran max zero index b c pending s k h = Ran-stop c.all_messages b _ s tt
  turn_loop-Ran max (suc left) index b c pending s k h =
      let config = c.active_config in
      let s1 = if ltb 0 index then record_event config AgentEvent.turn_start s else s in
      let s2 = record_injected_messages config pending s1 in
      let all : List (AgentMessage H) = c.all_messages ++ pending in
      Ran-step c.all_messages (1 - first_of index) left (started config index s) (ground arith)
        (ground arith) (ground arith)
        (subst
          (λ (l : List (AgentMessage H)).
            Ran l left s1 (turn_loop outside max (suc left) index c pending s))
          (sym (append-nil c.all_messages))
          (Ran-step c.all_messages 0 left (Effect-injected config pending s1) (ended-ends pending)
            (omega (arith, starts-ends pending)) (omega arith)
            (Ran-step all 0 left (Effect-turn outside config s2)
              (ended-turn_frame (run_one_turn outside config s2).0)
              (omega (arith, starts-turn_frame (run_one_turn outside config s2).0)) (omega arith)
              (after_turn-Ran (turn_loop outside max left (index + 1)) left
                (λ d p t kd. turn_loop-Ran max left (index + 1) left d p t kd (ground arith))
                (extend pending c) (run_one_turn outside config s2) k))))

  begin_turns-Ran :
      (config : AgentLoopConfig H W S) (initial : List (AgentMessage H))
      (r : Outcome (List (AgentMessage H)) × LoopState H W)
      → Keeps config
      → Ran [] (max_turns_of config - 1) r.1 (begin_turns outside config initial r)
  unfolding begin_turns max_turns_of
  begin_turns-Ran config initial (err e, s) k = Ran-stop [] _ (err e) s tt
  begin_turns-Ran config initial (ok pending, s) k =
      turn_loop-Ran _ _ 0 _ _ pending s k (ground arith)

  -- A run adds messages to the context, which are those that end in its events and, where it
  -- succeeds, those of its result; and it starts at most the turns that are allowed, the first
  -- apart, which its caller has started.
  pub run_until_done-Ran :
      (config : AgentLoopConfig H W S) (initial : List (AgentMessage H)) (s : LoopState H W)
      → Keeps config
      → Ran [] (max_turns_of config - 1) s (run_until_done outside config initial s)
  unfolding run_until_done get_queued_messages
  run_until_done-Ran config initial s k =
      by_test
        (λ (r : Outcome (List (AgentMessage H)) × LoopState H W).
          Ran [] (max_turns_of config - 1) s (begin_turns outside config initial r))
        config.skip_initial_queued_message_poll (begin_turns-Ran config initial (ok [], s) k)
        (Ran-quiet [] (max_turns_of config - 1) (Effect-provider config.queued_message_provider s)
          (begin_turns-Ran config initial _ k))
