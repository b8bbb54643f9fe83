-- ===== src/AgentLoop/Effect/Calls.antt =====
-- The calls of the agent loop of crates/ri-agent-core/src/agent_loop.rs, with every end of the loop.
use mathlib.Core.List.{append-nil, append_assoc}
use ri.Base.{
  ℕ, ◌-◌, ◌≤◌, ◌≡◌, refl, sym, ap, ◌∙◌, Bool, true, false, Option, some, List, [], ◌∷◌, ◌++◌,
  filter_map, filter_map-append, subst, length, length-append, drop, arith, is_empty, last,
  if◌then◌else◌,
}
use ri.Message.{Host}
use ri.Agent.Types.{AgentMessage, AgentEvent}
use ri.Agent.Run.{Outcome, ok, err, is_assistant, assistant_last}
use ri.Agent.Reduce.{ended}
use ri.AgentLoop.Types.{AgentLoopConfig, LoopState, LoopContext, Outside}
use ri.AgentLoop.Record.{record_event}
use ri.AgentLoop.Run.{LoopReturn, refused, max_turns_of, run_until_done, no_context_messages}
use ri.AgentLoop.Prepare.{loop_aborted}
use ri.AgentLoop.Call.{
  error_assistant, agent_loop_prompt_messages, agent_loop_continue, begin, record_prompts, settle,
  end_with, finish_agent_loop_with_error, finish_state, slice_from,
}
use ri.AgentLoop.Effect.{Effect, ends, Effect-trans, Effect-world}
use ri.AgentLoop.Effect.Ran.{KeepsMessages, Ran, starts-append, starts-ends, ended-ends}
use ri.AgentLoop.Effect.Loop.{run_until_done-Ran}
use ri.AgentLoop.Effect.Whole.{ReturnsWhole, Effect-prompts, Effect-finish, end_with-IsWhole}

drop-length {ℓ} : {A : Type ℓ} (xs ys : List A) → drop (length xs) (xs ++ ys) ≡ ys
drop-length [] ys = refl
drop-length (x ∷ xs) ys = drop-length xs ys

max_turns_pos : {H : Host} {W S : Type 0} (config : AgentLoopConfig H W S) → 1 ≤ max_turns_of config
unfolding max_turns_of
max_turns_pos config = ground arith

module _ {H : Host} {W S : Type 0} (outside : Outside H W S) (config : AgentLoopConfig H W S)
    (context : LoopContext H W) (prompts : List (AgentMessage H)) (w : W) where
  abbrev at_begin : LoopState H W
  at_begin = begin config (record context { messages = context.messages ++ prompts }) w

  -- The result of an error, cut from a context that has gained the prompts and `cs`.
  slice-gained :
      (cs : List (AgentMessage H)) (u : LoopState H W)
      → u.context.messages ≡ (context.messages ++ prompts) ++ cs
      → slice_from (length context.messages) u.context.messages ≡ some (prompts ++ cs)
  unfolding slice_from
  slice-gained cs u e =
      let e' : u.context.messages ≡ context.messages ++ (prompts ++ cs) =
        e ∙ append_assoc context.messages prompts cs in
      rw
        (
          e',
          length-append context.messages (prompts ++ cs),
          drop-length context.messages (prompts ++ cs),
        )
        (ground arith)

  settle-ReturnsWhole :
      (r : Outcome (List (AgentMessage H)) × LoopState H W)
      → KeepsMessages config.prepare_next_turn
      → Ran [] (max_turns_of config - 1) (record_prompts config prompts at_begin) r
      → ReturnsWhole context prompts
          (max_turns_of config)
          (end_with config (settle outside config (length context.messages) prompts r))
  unfolding settle end_with finish_agent_loop_with_error begin record_event
  settle-ReturnsWhole (ok ms, s) k g = (
    prompts ++ ms,
    _,
    refl,
    end_with-IsWhole config context prompts ms (ends prompts ++ g.frame) (max_turns_of config) w s
        (subst (λ (l : List (AgentMessage H)). Effect at_begin s l (ends prompts ++ g.frame))
          (sym g.result) (Effect-trans (Effect-prompts config prompts at_begin) g.effect))
        (filter_map-append ended (ends prompts) g.frame
          ∙ rw (ended-ends prompts, g.ended_new, g.result) refl)
        (omega (
          arith,
          starts-append (ends prompts) g.frame,
          starts-ends prompts,
          g.starts_le,
          max_turns_pos config,
        )),
  )
  settle-ReturnsWhole (err e, s) k g =
      let (is_aborted, w1) = loop_aborted config s.world in
      let (now, w2) = outside.now_millis w1 in
      let m = AgentMessage.assistant (error_assistant config is_aborted e now) in
      let s1 = record s { world = w2 } in
      let u = finish_state config m s1 in
      let os = AgentEvent.message_end m ∷ (AgentEvent.turn_end m [] ∷ []) in
      let frame = ends prompts ++ (g.frame ++ os) in
      let f : Effect at_begin u (g.new ++ m ∷ []) frame =
        Effect-trans (Effect-prompts config prompts at_begin)
          (Effect-trans g.effect (Effect-trans (Effect-world s w2) (Effect-finish config m s1))) in
      (
        prompts ++ (g.new ++ m ∷ []),
        _,
        ap (λ (l : Option (List (AgentMessage H))). end_with config (l, u))
            (slice-gained (g.new ++ m ∷ []) u f.context_new),
        end_with-IsWhole config context prompts (g.new ++ m ∷ []) frame (max_turns_of config) w u f
            (filter_map-append ended (ends prompts) (g.frame ++ os)
              ∙ ap (λ (l : List (AgentMessage H)). filter_map ended (ends prompts) ++ l)
                  (filter_map-append ended g.frame os)
              ∙ rw (ended-ends prompts, g.ended_new) refl)
            (omega (
              arith,
              starts-append (ends prompts) (g.frame ++ os),
              starts-append g.frame os,
              starts-ends prompts,
              g.starts_le,
              max_turns_pos config,
            )),
      )

  -- Whatever the model, the tools, the hooks and the queues answer, a call with prompts ends and
  -- returns messages, no error and no panic, where no turn replaces the messages of the context. The result begins
  -- with the prompts; the messages of the context have gained exactly the result; the events start the run and a turn
  -- and end the run with the result; the messages that end in the events are the result, in order; at
  -- most `max_turns` turns, and one at least, are started; and the returned log is all of the events
  -- but the reports of progress.
  pub agent_loop_prompt_messages-whole :
      KeepsMessages config.prepare_next_turn
      → ReturnsWhole context prompts
          (max_turns_of config)
          (agent_loop_prompt_messages outside config context prompts w)
  unfolding agent_loop_prompt_messages
  agent_loop_prompt_messages-whole k =
      settle-ReturnsWhole
        (run_until_done outside config prompts (record_prompts config prompts at_begin)) k
        (run_until_done-Ran outside config prompts (record_prompts config prompts at_begin) k)

module _ {H : Host} {W : Type 0} where
  -- What `agent_loop_continue` comes to, by whether there are no messages and whether the last one
  -- is the assistant's.
  abbrev pub Continued : LoopContext H W → ℕ → Bool → Bool → LoopReturn H W → Type 0
  Continued context max_turns true by_assistant r = r ≡ refused no_context_messages
  Continued context max_turns false true r = r ≡ refused assistant_last
  Continued context max_turns false false r = ReturnsWhole context [] max_turns r

module _ {H : Host} {W S : Type 0} (outside : Outside H W S) (config : AgentLoopConfig H W S)
    (context : LoopContext H W) (w : W) where
  continue-ReturnsWhole :
      KeepsMessages config.prepare_next_turn
      → ReturnsWhole context [] (max_turns_of config) (
          end_with config (
            settle outside config
              (length context.messages)
              []
              (run_until_done outside config [] (begin config context w))))
  unfolding record_prompts
  continue-ReturnsWhole k =
      subst
        (λ (c : LoopContext H W). ReturnsWhole context [] (max_turns_of config) (
          end_with config (
            settle outside config (length context.messages) []
              (run_until_done outside config [] (begin config c w)))))
        (ap (λ (l : List (AgentMessage H)). record context { messages = l })
          (append-nil context.messages))
        (settle-ReturnsWhole outside config context [] w
          (run_until_done outside config []
            (begin config (record context { messages = context.messages ++ [] }) w))
          k
          (run_until_done-Ran outside config []
            (begin config (record context { messages = context.messages ++ [] }) w) k))

  -- Where no turn replaces the messages of the context, a continuation is refused if the context has
  -- no messages, and if the assistant has spoken last; else it returns, and is whole as a call with no
  -- prompts is.
  pub agent_loop_continue_lem :
      KeepsMessages config.prepare_next_turn
      → Continued context
          (max_turns_of config)
          (is_empty context.messages)
          (is_assistant (last context.messages))
          (agent_loop_continue outside config context w)
  unfolding agent_loop_continue
  agent_loop_continue_lem k =
      by_tests (is_empty context.messages) (is_assistant (last context.messages))
    where
      whole : LoopReturn H W
      whole = end_with config (
          settle outside config (length context.messages) []
            (run_until_done outside config [] (begin config context w)))

      by_tests :
          (empty by_assistant : Bool)
          → Continued context (max_turns_of config) empty by_assistant (
              if empty
              then refused no_context_messages
              else if by_assistant
              then refused assistant_last
              else whole)
      by_tests true by_assistant = refl
      by_tests false true = refl
      by_tests false false = continue-ReturnsWhole k
