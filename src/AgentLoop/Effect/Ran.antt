-- ===== src/AgentLoop/Effect/Ran.antt =====
-- What the loop over turns adds to its state: `run_until_done` of
-- crates/ri-agent-core/src/agent_loop.rs.
use mathlib.Core.List.{append-nil, append_assoc}
use ri.Base.{
  ℕ, ◌+◌, ◌≤◌, ◌≡◌, refl, ap, ◌∙◌, Bool, Option, none, some, List, [], ◌∷◌, ◌++◌, filter_map,
  filter_map-append, retain, retain-append, length, length-append, arith, or_else,
}
use ri.Message.{Host}
use ri.Agent.Types.{AgentMessage, AgentEvent}
use ri.Agent.Run.{Outcome, ok, err}
use ri.Agent.Reduce.{ended}
use ri.AgentLoop.Types.{
  LoopState, LoopContext, TurnOutcome, AgentNextTurnContext, AgentLoopTurnUpdate,
}
use ri.AgentLoop.Run.{get_messages_from_provider, ask_hook}
use ri.AgentLoop.Effect.{Effect, ends, is_turn_start, Effect-trans, Effect-world}
use ri.AgentLoop.Effect.Turn.{closing, turn_messages, turn_frame}

module _ {H : Host} where
  abbrev pub starts : List (AgentEvent H) → ℕ
  starts es = length (retain is_turn_start es)

  pub starts-append : (es fs : List (AgentEvent H)) → starts (es ++ fs) ≡ starts es + starts fs
  starts-append es fs =
      ap length (retain-append is_turn_start es fs)
      ∙ length-append (retain is_turn_start es) (retain is_turn_start fs)

  pub starts-ends : (ms : List (AgentMessage H)) → starts (ends ms) ≡ 0
  starts-ends [] = refl
  starts-ends (m ∷ ms) = starts-ends ms

  pub ended-ends : (ms : List (AgentMessage H)) → filter_map ended (ends ms) ≡ ms
  ended-ends [] = refl
  ended-ends (m ∷ ms) = ap (◌∷◌ m) (ended-ends ms)

  pub ended-turn_frame :
      (o : Outcome (TurnOutcome H)) → filter_map ended (turn_frame o) ≡ turn_messages o
  ended-turn_frame (err e) = refl
  ended-turn_frame (ok o) =
      filter_map-append ended (ends o.messages) (closing o.messages o.tool_results)
      ∙ rw (ended-ends o.messages) (none_ended o.messages)
    where
      none_ended :
          (ms : List (AgentMessage H))
          → o.messages ++ filter_map ended (closing ms o.tool_results) ≡ o.messages
      none_ended [] = append-nil o.messages
      none_ended (m ∷ ms) = append-nil o.messages

  pub starts-turn_frame : (o : Outcome (TurnOutcome H)) → starts (turn_frame o) ≡ 0
  starts-turn_frame (err e) = refl
  starts-turn_frame (ok o) =
      starts-append (ends o.messages) (closing o.messages o.tool_results)
      ∙ omega (arith, starts-ends o.messages, no_start o.messages)
    where
      no_start : (ms : List (AgentMessage H)) → starts (closing ms o.tool_results) ≡ 0
      no_start [] = refl
      no_start (m ∷ ms) = refl

module _ {H : Host} {W S : Type 0} where
  -- The answer of the preparer of turns, where it has a context, has one with the same messages.
  abbrev pub SameMessages : LoopContext H W → Outcome (Option (AgentLoopTurnUpdate H W S)) → Type 0
  SameMessages context (ok (some update)) =
      (or_else context update.context).messages ≡ context.messages
  SameMessages context _ = Unit

  -- The preparer may replace all of a context but its messages.
  abbrev pub KeepsMessages :
      Option (AgentNextTurnContext H W → W → Outcome (Option (AgentLoopTurnUpdate H W S)) × W)
      → Type 0
  KeepsMessages none = Unit
  KeepsMessages (some preparer) =
      (context : AgentNextTurnContext H W) (w : W)
      → SameMessages context.context (preparer context w).0

module _ {H : Host} where
  abbrev pub IsResult :
      List (AgentMessage H) → List (AgentMessage H) → Outcome (List (AgentMessage H)) → Type 0
  IsResult all new (ok ms) = ms ≡ all ++ new
  IsResult all new (err e) = Unit

  IsResult-append :
      (all cs new : List (AgentMessage H)) (o : Outcome (List (AgentMessage H)))
      → IsResult (all ++ cs) new o
      → IsResult all (cs ++ new) o
  IsResult-append all cs new (ok ms) h = h ∙ append_assoc all cs new
  IsResult-append all cs new (err e) h = tt

module _ {H : Host} {W : Type 0} where
  -- From `s` to the state of `r` some messages were added, which are those that ended; at most
  -- `bound` turns were started; and the messages of `r`, where it is no error, are `all` and these.
  pub record Ran (all : List (AgentMessage H)) (bound : ℕ) (s : LoopState H W)
      (r : Outcome (List (AgentMessage H)) × LoopState H W) : Type 0 where
    pub new : List (AgentMessage H)
    pub frame : List (AgentEvent H)
    pub effect : Effect s r.1 new frame
    pub ended_new : filter_map ended frame ≡ new
    pub starts_le : starts frame ≤ bound
    pub result : IsResult all new r.0

  pub Ran-stop :
      (all : List (AgentMessage H)) (b : ℕ) (o : Outcome (List (AgentMessage H)))
      (s : LoopState H W)
      → IsResult all [] o
      → Ran all b s (o, s)
  Ran-stop all b o s h = record {
    new = [];
    frame = [];
    effect = Effect-world s s.world;
    ended_new = refl;
    starts_le = omega arith;
    result = h;
  }

  pub Ran-step :
      (all : List (AgentMessage H)) (a b : ℕ) {bound : ℕ} {s t : LoopState H W}
      {cs : List (AgentMessage H)} {os : List (AgentEvent H)}
      {r : Outcome (List (AgentMessage H)) × LoopState H W}
      → Effect s t cs os
      → filter_map ended os ≡ cs
      → starts os ≤ a
      → a + b ≤ bound
      → Ran (all ++ cs) b t r
      → Ran all bound s r
  Ran-step all a b {cs = cs} {os = os} {r = r} f e n le g = record {
    new = cs ++ g.new;
    frame = os ++ g.frame;
    effect = Effect-trans f g.effect;
    ended_new = filter_map-append ended os g.frame ∙ rw (e, g.ended_new) refl;
    starts_le = omega (arith, starts-append os g.frame, n, le, g.starts_le);
    result = IsResult-append all cs g.new r.0 g.result;
  }

  pub Ran-quiet :
      (all : List (AgentMessage H)) (b : ℕ) {s t : LoopState H W}
      {r : Outcome (List (AgentMessage H)) × LoopState H W}
      → Effect s t [] []
      → Ran all b t r
      → Ran all b s r
  Ran-quiet all b f g = record {
    new = g.new;
    frame = g.frame;
    effect = Effect-trans f g.effect;
    ended_new = g.ended_new;
    starts_le = g.starts_le;
    result = g.result;
  }

  pub Effect-provider :
      (provider : Option (W → Outcome (List (AgentMessage H)) × W)) (s : LoopState H W)
      → Effect s (get_messages_from_provider provider s).1 [] []
  unfolding get_messages_from_provider
  Effect-provider none s = Effect-world s s.world
  Effect-provider (some provider) s = Effect-world s (provider s.world).1

  pub Effect-hook :
      (hook : Option (AgentNextTurnContext H W → W → Outcome Bool × W)) (o : TurnOutcome H)
      (first new : List (AgentMessage H)) (s : LoopState H W)
      → Effect s (ask_hook hook o first new s).1 [] []
  unfolding ask_hook
  Effect-hook none o first new s = Effect-world s s.world
  Effect-hook (some hook) o [] new s = Effect-world s s.world
  Effect-hook (some hook) o (AgentMessage.assistant m ∷ ms) new s = Effect-world s _
  Effect-hook (some hook) o (AgentMessage.user m ∷ ms) new s = Effect-world s s.world
  Effect-hook (some hook) o (AgentMessage.tool_result m ∷ ms) new s = Effect-world s s.world
  Effect-hook (some hook) o (AgentMessage.custom v ∷ ms) new s = Effect-world s s.world
