-- ===== src/AgentLoop/Effect/Whole.antt =====
-- A whole call of the agent loop of crates/ri-agent-core/src/agent_loop.rs: its result, its context
-- and its events.
use mathlib.Core.List.{append-nil, append_assoc}
use ri.Base.{
  ℕ, ◌+◌, ◌≤◌, ◌≡◌, refl, sym, ap, ◌∙◌, List, [], ◌∷◌, ◌++◌, filter_map, filter_map-append, retain,
  retain-append, arith,
}
use ri.Message.{Host}
use ri.Agent.Types.{AgentMessage, AgentEvent}
use ri.Agent.Reduce.{ended}
use ri.AgentLoop.Types.{AgentLoopConfig, LoopState, LoopContext}
use ri.AgentLoop.Record.{
  record_event, push_message, deliver, is_progress, record_tool_result_message_events,
}
use ri.AgentLoop.Run.{LoopReturn, returned}
use ri.AgentLoop.Call.{begin, record_prompts, finish_state}
use ri.AgentLoop.Effect.{
  Effect, ends, is_logged, is_outline, Effect-trans, Effect-world, Effect-record, Effect-announce,
  Effect-add,
}
use ri.AgentLoop.Effect.Ran.{starts, starts-append}

module _ {H : Host} where
  outline_marks :
      (es : List (AgentEvent H))
      → (filter_map ended (retain is_outline es) ≡ filter_map ended es)
        × (starts (retain is_outline es) ≡ starts es)
  outline_marks [] = (refl, refl)
  outline_marks (AgentEvent.message_end m ∷ es) = let (p, q) = outline_marks es in (ap (◌∷◌ m) p, q)
  outline_marks (AgentEvent.turn_start ∷ es) =
      let (p, q) = outline_marks es in (p, omega (arith, q))
  outline_marks (e ∷ es) = outline_marks es

module _ {H : Host} {W : Type 0} where
  -- The result `new` and the last state `t` of a call with the prompts `prompts` on `context`: the
  -- result begins with the prompts; the messages of the context have gained the result; the history
  -- starts the run and a turn, and ends the run with the result; the messages that end in it are
  -- the result, in order; it starts at most `max_turns` turns; and the log is the history without
  -- the reports of progress.
  pub record IsWhole (context : LoopContext H W) (prompts : List (AgentMessage H)) (max_turns : ℕ)
      (new : List (AgentMessage H)) (t : LoopState H W) : Type 0 where
    pub more : List (AgentMessage H)
    pub begins : new ≡ prompts ++ more
    pub gained : t.context.messages ≡ context.messages ++ new
    pub between : List (AgentEvent H)
    pub framed :
        t.history
        ≡ AgentEvent.agent_start
          ∷ (AgentEvent.turn_start ∷ (between ++ AgentEvent.agent_end new ∷ []))
    pub ended_new : filter_map ended t.history ≡ new
    pub starts_le : starts t.history ≤ max_turns
    pub logged : t.events ≡ retain is_logged t.history

  -- A call that returns, and whose state is whole.
  abbrev pub ReturnsWhole : LoopContext H W → List (AgentMessage H) → ℕ → LoopReturn H W → Type 0
  ReturnsWhole context prompts max_turns r =
      (new : List (AgentMessage H)) × (t : LoopState H W) × (r ≡ returned new t)
      × IsWhole context prompts max_turns new t

module _ {H : Host} {W S : Type 0} (config : AgentLoopConfig H W S) where
  pub Effect-prompts :
      (ms : List (AgentMessage H)) (s : LoopState H W)
      → Effect s (record_prompts config ms s) [] (ends ms)
  unfolding record_prompts
  Effect-prompts [] s = Effect-world s s.world
  Effect-prompts (m ∷ ms) s =
      Effect-trans (Effect-announce config m s)
        (Effect-prompts ms (record_tool_result_message_events config m s))

  pub Effect-finish :
      (m : AgentMessage H) (s : LoopState H W)
      → Effect s
          (finish_state config m s)
          (m ∷ [])
          (AgentEvent.message_end m ∷ (AgentEvent.turn_end m [] ∷ []))
  unfolding finish_state
  Effect-finish m s =
      let s1 = record_event config (AgentEvent.message_start m) s in
      Effect-trans (Effect-record config (AgentEvent.message_start m) s) (
        Effect-trans (Effect-add config m s1) (
          Effect-record config (AgentEvent.turn_end m [])
            (record_event config (AgentEvent.message_end m) (push_message m s1))))

  -- The last event, when all that was added from the begin of the call is known.
  pub end_with-IsWhole :
      (context : LoopContext H W) (prompts cs : List (AgentMessage H)) (os : List (AgentEvent H))
      (n : ℕ) (w : W) (u : LoopState H W)
      → Effect (begin config (record context { messages = context.messages ++ prompts }) w) u cs os
      → filter_map ended os ≡ prompts ++ cs
      → starts os + 1 ≤ n
      → IsWhole context prompts n
          (prompts ++ cs)
          (record_event config (AgentEvent.agent_end (prompts ++ cs)) u)
  unfolding begin record_event deliver is_progress
  end_with-IsWhole context prompts cs os n w u f e le =
      let new = prompts ++ cs in
      let last : AgentEvent H = AgentEvent.agent_end new in
      let (marks_ended, marks_starts) = outline_marks f.new in
      let ended_between : filter_map ended f.new ≡ new =
        sym marks_ended ∙ ap (filter_map ended) f.outline ∙ e in
      let same : u.history ++ last ∷ []
          ≡ AgentEvent.agent_start ∷ (AgentEvent.turn_start ∷ (f.new ++ last ∷ [])) =
        ap (λ (l : List (AgentEvent H)). l ++ last ∷ []) f.history_new in
      let f_events : u.events
            ≡ AgentEvent.agent_start ∷ (AgentEvent.turn_start ∷ retain is_logged f.new)
          → u.events ++ last ∷ []
            ≡ AgentEvent.agent_start
              ∷ (AgentEvent.turn_start ∷ (retain is_logged f.new ++ last ∷ [])) =
        ap (λ (l : List (AgentEvent H)). l ++ last ∷ []) in
      record {
        more = cs;
        begins = refl;
        gained = f.context_new ∙ append_assoc context.messages prompts cs;
        between = f.new;
        framed = same;
        ended_new =
            ap (filter_map ended) same
            ∙ filter_map-append ended f.new (last ∷ [])
            ∙ append-nil (filter_map ended f.new)
            ∙ ended_between;
        starts_le = omega (
          arith,
          ap starts same,
          starts-append f.new (last ∷ []),
          marks_starts,
          ap starts f.outline,
          le,
        );
        logged =
            f_events f.events_new
            ∙ sym (
                ap (retain is_logged) same
                ∙ ap
                    (λ (l : List (AgentEvent H)).
                      AgentEvent.agent_start ∷ (AgentEvent.turn_start ∷ l))
                    (retain-append is_logged f.new (last ∷ [])));
      }
